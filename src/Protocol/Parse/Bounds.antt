-- ===== src/Protocol/Parse/Bounds.antt =====
-- What every message that `Parse` accepts is like, and that its last test never fails.
use ircat.Base.{
  ℕ, zero, suc, ◌+◌, ◌-◌, ◌≤◌, ◌≡◌, refl, sym, ◌∙◌, ◌≢◌, inl, inr, Bool, true, false, Option, none,
  some, List, [], ◌∷◌, arith, ltb, Bool-cases, Option-cases, length, Bytes,
}
use mathlib.Core.Path.{subst}
use ircat.Base.GoMap.{GoMap}
use ircat.Protocol.Message.{
  Message, max_message_bytes, max_params, ProtocolError, empty, too_many_params, bad_command,
  Result, ok, err, refuse_if, ◌>>=◌, ◌>>◌, refuse_if-ok, bind-ok, ok-injective, err-ok,
}
use ircat.Protocol.Text.{
  cut, split, trim_left, trim_suffix, no_bytes, valid_command, canonical_command,
}
use ircat.Protocol.Text.Commands.{canonical-valid, canonical-canonical}
use ircat.Protocol.Tags.{parse_tag, parse_each, parse_tags}
use ircat.Protocol.Parse.{
  rest_of_line, tag_prefix, take_tags, source_prefix, take_prefix, command_and_rest, take_params,
  parse_line, read_command, parse,
}

-- The loop leaves room for one trailing parameter behind the middle ones.
pub length-take_params : (left : ℕ) (s : Bytes) → length (take_params left s) ≤ left + 1
unfolding take_params
length-take_params zero [] = omega arith
length-take_params zero (b ∷ s) = ground arith
length-take_params (suc left) [] = omega arith
length-take_params (suc left) (b ∷ s) = elim (Option-cases (cut b' ' (b ∷ s))) [
  | inl e ↦ rw e (ground arith)
  | inr ((p, rest), e) ↦ rw e (ground (arith, length-take_params left (trim_left rest)))
]

few_enough : (s : Bytes) → ltb max_params (length (take_params (max_params - 1) s)) ≡ false
few_enough s = ground (arith, length-take_params (max_params - 1) s)

read_command_valid :
    (t : GoMap Bytes Bytes) (p cmd s : Bytes)
    → valid_command cmd ≡ true
    → read_command t p (cmd, s)
      ≡ ok (record {
        tags = t;
        prefix = p;
        command = canonical_command cmd;
        params = take_params (max_params - 1) s;
      })
unfolding read_command
read_command_valid t p cmd s v = rw (v, few_enough s) refl

read_command_invalid :
    (t : GoMap Bytes Bytes) (p cmd s : Bytes)
    → valid_command cmd ≡ false
    → read_command t p (cmd, s) ≡ err bad_command
unfolding read_command
read_command_invalid t p cmd s v = rw v refl

-- A message in the parser's canonical form.
pub record IsParsed (m : Message) : Type 0 where
  pub valid : valid_command m.command ≡ true
  pub stable : canonical_command m.command ≡ m.command
  pub few : length m.params ≤ max_params

read_command-IsParsed :
    (t : GoMap Bytes Bytes) (p : Bytes) (c : Bytes × Bytes) (m : Message)
    → read_command t p c ≡ ok m
    → IsParsed m
read_command-IsParsed t p (cmd, s) m h = elim (Bool-cases (valid_command cmd)) [
  | inl v ↦ subst IsParsed (ok-injective (sym (read_command_valid t p cmd s v) ∙ h)) (record {
    valid = canonical-valid cmd v;
    stable = canonical-canonical cmd v;
    few = length-take_params (max_params - 1) s;
  })
  | inr v ↦ absurd (err-ok (sym (read_command_invalid t p cmd s v) ∙ h))
]

parse_line-IsParsed : (line : Bytes) (m : Message) → parse_line line ≡ ok m → IsParsed m
unfolding parse_line
parse_line-IsParsed line m h =
    let (_, h1) = refuse_if-ok (no_bytes line) empty _ m h in
    let (tagged, _, h2) = bind-ok (take_tags line) _ m h1 in
    let (prefixed, _, h3) = bind-ok (take_prefix tagged.1) _ m h2 in
    read_command-IsParsed tagged.0 prefixed.0 (command_and_rest prefixed.1) m h3

abbrev bare : Bytes → Bytes
bare line = trim_suffix b'\r' (trim_suffix b'\n' line)

-- A message that `Parse` accepts has at most 15 parameters and a valid command, which is in
-- canonical form.
pub parse-IsParsed : (line : Bytes) (m : Message) → parse line ≡ ok m → IsParsed m
unfolding parse
parse-IsParsed line m h = elim (Bool-cases (ltb max_message_bytes (length line))) [
  | inl e ↦ absurd (ground arith)
  | inr e ↦ parse_line-IsParsed (bare line) m (ground arith)
]

-- No chain of results whose parts avoid an error ends in it.
abbrev Never {ℓ} : {A : Type ℓ} → Result A → Type ℓ
Never r = r ≢ err too_many_params

err_again :
    {A B : Type 0} {e f : ProtocolError}
    → ◌≡◌ {A = Result B} (err e) (err f)
    → ◌≡◌ {A = Result A} (err e) (err f)
err_again h = ground arith

bind-Never :
    {A B : Type 0} (r : Result A) (f : A → Result B)
    → Never r
    → ((a : A) → Never (f a))
    → Never (r >>= f)
bind-Never (ok a) f hr hf = hf a
bind-Never (err e) f hr hf = λ h. hr (err_again h)

refuse-Never :
    {A : Type 0} (b : Bool) (e : ProtocolError) (k : Result A)
    → e ≢ too_many_params
    → Never k
    → Never (refuse_if b e >> k)
refuse-Never true e k h hk = λ h'. ground (arith, h)
refuse-Never false e k h hk = hk

parse_tag-Never : (tag : Bytes) (out : GoMap Bytes Bytes) → Never (parse_tag tag out)
unfolding parse_tag
parse_tag-Never tag out h = ground arith

parse_each-Never : (l : List Bytes) (out : GoMap Bytes Bytes) → Never (parse_each l out)
unfolding parse_each
parse_each-Never [] out h = ground arith
parse_each-Never (t ∷ l) out h =
    bind-Never (parse_tag t out) _ (parse_tag-Never t out) (λ out'. parse_each-Never l out') h

parse_tags-Never : (body : Bytes) → Never (parse_tags body)
unfolding parse_tags
parse_tags-Never body h = ground (arith, parse_each-Never (split b';' body) [])

rest_of_line-Never : (s : Bytes) → Never (rest_of_line s)
unfolding rest_of_line
rest_of_line-Never s h = ground arith

tag_prefix-Never : (c : Option (Bytes × Bytes)) → Never (tag_prefix c)
unfolding tag_prefix
tag_prefix-Never none h = ground arith
tag_prefix-Never (some (body, rest)) h =
    bind-Never (parse_tags body) _ (parse_tags-Never body)
      (λ t. bind-Never (rest_of_line rest) _ (rest_of_line-Never rest) (λ s h. ground arith)) h

source_prefix-Never : (c : Option (Bytes × Bytes)) → Never (source_prefix c)
unfolding source_prefix
source_prefix-Never none h = ground arith
source_prefix-Never (some (p, rest)) h =
    bind-Never (rest_of_line rest) _ (rest_of_line-Never rest) (λ s h. ground arith) h

take_tags-Never : (s : Bytes) → Never (take_tags s)
unfolding take_tags
take_tags-Never [] h = ground arith
take_tags-Never (b ∷ s) h = ground (arith, tag_prefix-Never (cut b' ' s))

take_prefix-Never : (s : Bytes) → Never (take_prefix s)
unfolding take_prefix
take_prefix-Never [] h = ground arith
take_prefix-Never (b ∷ s) h = ground (arith, source_prefix-Never (cut b' ' s))

read_command-Never :
    (t : GoMap Bytes Bytes) (p : Bytes) (c : Bytes × Bytes) → Never (read_command t p c)
read_command-Never t p (cmd, s) h = elim (Bool-cases (valid_command cmd)) [
  | inl v ↦ ground (arith, read_command_valid t p cmd s v)
  | inr v ↦ ground (arith, read_command_invalid t p cmd s v)
]

parse_line-Never : (line : Bytes) → Never (parse_line line)
unfolding parse_line
parse_line-Never line =
    refuse-Never (no_bytes line) empty _ (λ e. ground arith)
      (bind-Never (take_tags line) _ (take_tags-Never line) (λ t.
        bind-Never (take_prefix t.1) _ (take_prefix-Never t.1)
          (λ p. read_command-Never t.0 p.0 (command_and_rest p.1))))

-- `Parse` never answers ErrTooManyParams, whatever the line.
pub parse_never_too_many : (line : Bytes) → parse line ≢ err too_many_params
unfolding parse
parse_never_too_many line h = elim (Bool-cases (ltb max_message_bytes (length line))) [
  | inl e ↦ ground arith
  | inr e ↦ parse_line-Never (bare line) (ground arith)
]
