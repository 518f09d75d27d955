-- ===== src/Protocol/Encode/RoundTrip.antt =====
-- What `Bytes` writes, `Parse` reads back.
use ircat.Base.{
  ℕ, ◌-◌, ◌≤◌, ◌≡◌, refl, sym, ap, ◌∙◌, Bool, true, false, not, List, [], ◌∷◌, ◌++◌, append-nil,
  append_assoc, arith, ltb, ◌==◌, length, All, Bytes, bytes_has_eq,
}
use ircat.Base.GoMap.{GoMap, Distinct}
use ircat.Protocol.Message.{
  refuse_if-ok, bind-ok, ok-injective, bad_command, too_many_params, too_long, Message,
  max_message_bytes, max_params, ok,
}
use ircat.Protocol.Text.{trim_suffix, no_bytes, valid_command, canonical_command}
use ircat.Protocol.Text.Commands.{
  trim_left_start, trim_suffix_end, IsWordByte, canonical-valid, canonical-canonical,
  canonical-words,
}
use ircat.Protocol.Tags.{sort_tags, write_tags}
use ircat.Protocol.Tags.Pieces.{Avoids, cut_at, cut-none}
use ircat.Protocol.Tags.RoundTrip.{HasKeys, write_tags-Avoids, parse_tags-write_tags}
use ircat.Protocol.Tags.Sort.{HasKeys-sort_tags, Distinct-sort_tags, sort_tags-ne-nil}
use ircat.Protocol.Parse.{
  rest_of_line, tag_prefix, take_tags, source_prefix, take_prefix, command_and_rest, take_params,
  parse_line, read_command, parse,
}
use ircat.Protocol.Encode.{write_params, tag_part, prefix_part, crlf, assembled, to_bytes}
use ircat.Protocol.Encode.Params.{write_params-ReadsBack}

-- A text that begins with a byte other than a space.
abbrev Starts : Bytes → Type 0
Starts s = (c : ℕ) × (r : Bytes) × (s ≡ c ∷ r) × ((c == b' ') ≡ false) × ((c == b'@') ≡ false)

rest_of_line-Starts : (s : Bytes) → Starts s → rest_of_line s ≡ ok s
unfolding rest_of_line
rest_of_line-Starts s (c, r, e, no_space, _) = rw (e, trim_left_start c r no_space)

append-pair : (a s : Bytes) → (a ++ b' ' ∷ []) ++ s ≡ a ++ (b' ' ∷ s)
append-pair a s = append_assoc a (b' ' ∷ []) s

take_tags-tag_part :
    (t : GoMap Bytes Bytes) (s : Bytes)
    → HasKeys t
    → Distinct t
    → Starts s
    → take_tags (tag_part t ++ s) ≡ ok (sort_tags t, s)
unfolding take_tags tag_prefix sort_tags
take_tags-tag_part [] s h d (c, r, e, no_space, no_at) = rw (e, no_at)
take_tags-tag_part (e ∷ t) s h d st =
    let sorted = sort_tags (e ∷ t) in
    let keys = HasKeys-sort_tags (e ∷ t) h in
    rw (
      append-pair (write_tags sorted) s,
      cut_at b' ' (write_tags sorted) s (write_tags-Avoids sorted keys),
      parse_tags-write_tags sorted (sort_tags-ne-nil e t) keys (Distinct-sort_tags (e ∷ t) d),
      rest_of_line-Starts s st,
    )

abbrev Commands : Bytes → Type 0
Commands s = (c : ℕ) × (r : Bytes) × (s ≡ c ∷ r) × IsWordByte c

take_prefix-prefix_part :
    (p s : Bytes) → Avoids b' ' p → Commands s → take_prefix (prefix_part p ++ s) ≡ ok (p, s)
unfolding take_prefix source_prefix
take_prefix-prefix_part [] s a (c, r, e, (no_space, no_at, no_colon)) = rw (e, no_colon)
take_prefix-prefix_part (x ∷ p) s a (c, r, e, (no_space, no_at, no_colon)) = rw (
  append-pair (x ∷ p) s,
  cut_at b' ' (x ∷ p) s a,
  rest_of_line-Starts s (c, r, e, no_space, no_at),
)

prefix_part-Starts : (p s : Bytes) → Commands s → Starts (prefix_part p ++ s)
prefix_part-Starts [] s (c, r, e, (no_space, no_at, no_colon)) = (c, r, e, no_space, no_at)
prefix_part-Starts (x ∷ p) s h = (b':', _, refl, refl, refl)

words-Avoids : (w : Bytes) → All IsWordByte w → Avoids b' ' w
words-Avoids [] h = tt
words-Avoids (x ∷ w) h = (h.0.0, words-Avoids w h.1)

words-Commands : (w s : Bytes) → no_bytes w ≡ false → All IsWordByte w → Commands (w ++ s)
words-Commands [] s h a = cc
words-Commands (x ∷ w) s h a = (x, w ++ s, refl, a.0)

nothing_written : (out : Bytes) → write_params [] ≡ ok out → out ≡ []
unfolding write_params
nothing_written out h = ground arith

no_params : take_params (max_params - 1) [] ≡ []
unfolding take_params
no_params = refl

command_alone : (w : Bytes) → Avoids b' ' w → command_and_rest w ≡ (w, [])
command_alone w a = rw (cut-none b' ' w a, command_and_rest)

-- The command is cut off, and the parameters behind it are read.
read_params :
    (w : Bytes) (ps : List Bytes) (out : Bytes)
    → All IsWordByte w
    → length ps ≤ max_params
    → write_params ps ≡ ok out
    → (text : Bytes) × (command_and_rest (w ++ out) ≡ (w, text))
      × (take_params (max_params - 1) text ≡ ps)
read_params w [] out a le h = (
  [],
  ap (λ o. command_and_rest (w ++ o)) (nothing_written out h)
      ∙ ap command_and_rest (append-nil w)
      ∙ command_alone w (words-Avoids w a),
  no_params,
)
read_params w (p ∷ ps) out a le h =
    let r =
      write_params-ReadsBack (p ∷ ps) (max_params - 1) out (λ e. cc e) (omega (arith, le)) h in
    (
      r.text,
      rw (r.spaced, command_and_rest, cut_at b' ' w r.text (words-Avoids w a), r.trimmed),
      r.taken,
    )

-- A message that `Bytes` writes in a form that `Parse` can read: the tags have distinct keys
-- that hold none of the bytes that end them, and the prefix has no space.
line-full : (t : GoMap Bytes Bytes) (s : Bytes) → Starts s → no_bytes (tag_part t ++ s) ≡ false
line-full [] s (c, r, e, _, _) = rw e refl
line-full (x ∷ t) s h = refl

ltb_of_le : {a b : ℕ} → a ≤ b → ltb b a ≡ false
ltb_of_le le = ground (arith, le)

true_of_not : {b : Bool} → not b ≡ false → b ≡ true
true_of_not h = ground arith

le_of_ltb : {a b : ℕ} → ltb b a ≡ false → a ≤ b
le_of_ltb h = ground (arith, h)

pub record IsWireSafe (m : Message) : Type 0 where
  pub keys : HasKeys m.tags
  pub distinct : Distinct m.tags
  pub no_space : Avoids b' ' m.prefix

-- what `Parse` gives for it
abbrev pub as_read : Message → Message
as_read m = record m { tags = sort_tags m.tags; command = canonical_command m.command }

parse_line-parts :
    (m : Message) (out : Bytes)
    → IsWireSafe m
    → valid_command m.command ≡ true
    → length m.params ≤ max_params
    → write_params m.params ≡ ok out
    → parse_line (tag_part m.tags ++ (prefix_part m.prefix ++ (canonical_command m.command ++ out)))
      ≡ ok (as_read m)
unfolding parse_line read_command
parse_line-parts m out safe valid le h =
    let w = canonical_command m.command in
    let (full, words) = canonical-words m.command valid in
    let (text, at_command, taken) = read_params w m.params out words le h in
    let commands = words-Commands w out full words in
    let starts = prefix_part-Starts m.prefix (w ++ out) commands in
    rw
      (
        take_tags-tag_part m.tags (prefix_part m.prefix ++ (w ++ out)) safe.keys safe.distinct
            starts,
        take_prefix-prefix_part m.prefix (w ++ out) safe.no_space commands,
        at_command,
        canonical-valid m.command valid,
        taken,
        canonical-canonical m.command valid,
        line-full m.tags (prefix_part m.prefix ++ (w ++ out)) starts,
        ltb_of_le le,
      )
      refl

trim_crlf : (s : Bytes) → trim_suffix b'\r' (trim_suffix b'\n' (s ++ crlf)) ≡ s
trim_crlf s =
    rw
      (
        sym (append_assoc s (b'\r' ∷ []) (b'\n' ∷ [])),
        trim_suffix_end b'\n' (s ++ b'\r' ∷ []),
        trim_suffix_end b'\r' s,
      )
      refl

append-parts : (a b c d e : Bytes) → a ++ (b ++ (c ++ (d ++ e))) ≡ (a ++ (b ++ (c ++ d))) ++ e
append-parts a b c d e = simp (append_assoc)

-- What `Bytes` accepted.
record Written (m : Message) (line : Bytes) : Type 0 where
  valid : valid_command m.command ≡ true
  few : length m.params ≤ max_params
  out : Bytes
  params : write_params m.params ≡ ok out
  short : ltb max_message_bytes (length (assembled m out)) ≡ false
  whole : assembled m out ≡ line

to_bytes-Written : (m : Message) (line : Bytes) → to_bytes m ≡ ok line → Written m line
unfolding to_bytes
to_bytes-Written m line h =
    let (valid, h') = refuse_if-ok (not (valid_command m.command)) bad_command _ line h in
    let (few, h'') = refuse_if-ok (ltb max_params (length m.params)) too_many_params _ line h' in
    let (out, params, h3) = bind-ok (write_params m.params) _ line h'' in
    let (short, whole) =
      refuse_if-ok (ltb max_message_bytes (length (assembled m out))) too_long _ line h3 in
    record {
      valid = true_of_not valid;
      few = le_of_ltb few;
      out = out;
      params = params;
      short = short;
      whole = ok-injective whole;
    }

-- For a message whose tags have distinct keys that are not empty and hold no `=`, `;` or space,
-- and whose prefix holds no space: whatever line `Bytes` writes of it, `Parse` reads that line as
-- the message, with its tags sorted by key and its command in canonical form.
pub parse-to_bytes :
    (m : Message) (line : Bytes) → IsWireSafe m → to_bytes m ≡ ok line → parse line ≡ ok (as_read m)
unfolding parse
parse-to_bytes m line safe h =
    let w = to_bytes-Written m line h in
    rw
      (
        sym w.whole,
        w.short,
        append-parts (tag_part m.tags) (prefix_part m.prefix) (canonical_command m.command) w.out
            crlf,
        trim_crlf
            (tag_part m.tags ++ (prefix_part m.prefix ++ (canonical_command m.command ++ w.out))),
      )
      (parse_line-parts m w.out safe w.valid w.few w.params)
