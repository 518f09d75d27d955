-- ===== src/Protocol/Parse.antt =====
-- `Parse` of internal/protocol/parse.go.
pub mod Bounds
use ircat.Base.{
  ℕ, zero, suc, ◌-◌, not, Option, none, some, List, [], ◌∷◌, ltb, ◌==◌, if◌then◌else◌, length,
  Bytes, bytes_has_eq,
}
use ircat.Base.GoMap.{GoMap}
use ircat.Protocol.Message.{
  ◌>>=◌, ◌>>◌, Message, max_message_bytes, max_params, empty, too_long, too_many_params,
  bad_command, bad_tags, Result, ok, err, refuse_if,
}
use ircat.Protocol.Text.{trim_suffix, cut, trim_left, no_bytes, valid_command, canonical_command}
use ircat.Protocol.Tags.{parse_tags}

-- `s = strings.TrimLeft(s[sp+1:], " ")` with the test for an empty rest
unfoldable pub rest_of_line : Bytes → Result Bytes
rest_of_line s = let s' = trim_left s in if no_bytes s' then err empty else ok s'

abbrev Tags : Type 0
Tags = GoMap Bytes Bytes

unfoldable pub tag_prefix : Option (Bytes × Bytes) → Result (Tags × Bytes)
tag_prefix none = err bad_tags
tag_prefix (some (body, rest)) = do tags ← parse_tags body; s ← rest_of_line rest; ok (tags, s)

-- the optional `@tags `
unfoldable pub take_tags : Bytes → Result (Tags × Bytes)
take_tags [] = ok ([], [])
take_tags (b ∷ s) =
    let tagged = tag_prefix (cut b' ' s) in if b == b'@' then tagged else ok ([], b ∷ s)

unfoldable pub source_prefix : Option (Bytes × Bytes) → Result (Bytes × Bytes)
source_prefix none = err empty
source_prefix (some (prefix, rest)) = do s ← rest_of_line rest; ok (prefix, s)

-- the optional `:prefix `
unfoldable pub take_prefix : Bytes → Result (Bytes × Bytes)
take_prefix [] = ok ([], [])
take_prefix (b ∷ s) =
    let prefixed = source_prefix (cut b' ' s) in if b == b':' then prefixed else ok ([], b ∷ s)

abbrev pub command_and_rest : Bytes → Bytes × Bytes
command_and_rest s = elim (cut b' ' s) [ none ↦ (s, []) | some (cmd, rest) ↦ (cmd, trim_left rest) ]

-- The loop over the parameters; `left` counts the middle parameters that may still come, so that
-- it is 0 where `len(m.Params) >= MaxParams-1`.
unfoldable pub take_params : ℕ → Bytes → List Bytes
take_params left [] = []
take_params zero (b ∷ s) = if b == b':' then s ∷ [] else (b ∷ s) ∷ []
take_params (suc left) (b ∷ s) =
    let middle : List Bytes = elim (cut b' ' (b ∷ s)) [
      | none ↦ (b ∷ s) ∷ []
      | some (p, rest) ↦ p ∷ take_params left (trim_left rest)
    ] in
    if b == b':' then s ∷ [] else middle

-- from the command on
unfoldable pub read_command : Tags → Bytes → Bytes × Bytes → Result Message
unfolding take_params
read_command tags prefix (cmd, s) = do
  refuse_if (not (valid_command cmd)) bad_command
  let params = take_params (max_params - 1) s
  refuse_if (ltb max_params (length params)) too_many_params
  ok (record { tags = tags; prefix = prefix; command = canonical_command cmd; params = params })

unfoldable pub parse_line : Bytes → Result Message
parse_line line = do
  refuse_if (no_bytes line) empty
  (tags, s) ← take_tags line
  (prefix, s) ← take_prefix s
  read_command tags prefix (command_and_rest s)

unfoldable pub parse : Bytes → Result Message
unfolding parse_line read_command take_params take_tags tag_prefix take_prefix source_prefix
    rest_of_line trim_suffix cut trim_left valid_command parse_tags
parse line =
    if ltb max_message_bytes (length line)
    then err too_long
    else parse_line (trim_suffix b'\r' (trim_suffix b'\n' line))
