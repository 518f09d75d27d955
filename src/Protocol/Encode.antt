-- ===== src/Protocol/Encode.antt =====
-- `Bytes` of internal/protocol/encode.go.
pub mod Params
pub mod RoundTrip
use ircat.Base.{
  ℕ, Bool, false, not, ◌||◌, List, [], ◌∷◌, ◌++◌, ltb, ◌==◌, if◌then◌else◌, length, any, Bytes,
  bytes_has_eq,
}
use ircat.Base.GoMap.{GoMap}
use ircat.Protocol.Message.{
  ◌>>=◌, ◌>>◌, Message, max_message_bytes, max_params, too_long, too_many_params, bad_command,
  Result, ok, err, refuse_if,
}
use ircat.Protocol.Text.{valid_command, canonical_command}
use ircat.Protocol.Tags.{sort_tags, write_tags}

abbrev pub ends_line : ℕ → Bool
ends_line c = c == b'\r' || c == b'\n' || c == 0

-- `assertNoCRLFNUL`
unfoldable pub no_crlf_nul : Bytes → Bool
no_crlf_nul p = not (any ends_line p)

-- `assertNoSpaceCRLFNUL`
unfoldable pub no_space_crlf_nul : Bytes → Bool
no_space_crlf_nul p = not (any (λ c. c == b' ' || ends_line c) p)

-- `assertMiddleParam`
unfoldable pub is_middle : Bytes → Bool
unfolding no_space_crlf_nul any
is_middle [] = false
is_middle (c ∷ p) = if c == b':' then false else no_space_crlf_nul (c ∷ p)

-- the loop over the parameters
unfoldable pub write_params : List Bytes → Result Bytes
write_params [] = ok []
write_params (p ∷ []) = if not (no_crlf_nul p) then err bad_command else ok (b' ' ∷ b':' ∷ p)
write_params (p ∷ q ∷ ps) =
    let later = (do rest ← write_params (q ∷ ps); ok (b' ' ∷ (p ++ rest))) in
    if not (is_middle p) then err bad_command else later

abbrev pub tag_part : GoMap Bytes Bytes → Bytes
tag_part [] = []
tag_part (t ∷ tags) = b'@' ∷ (write_tags (sort_tags (t ∷ tags)) ++ b' ' ∷ [])

abbrev pub prefix_part : Bytes → Bytes
prefix_part [] = []
prefix_part (c ∷ prefix) = b':' ∷ ((c ∷ prefix) ++ b' ' ∷ [])

abbrev pub crlf : Bytes
crlf = b'\r' ∷ b'\n' ∷ []

-- the whole line
abbrev pub assembled : Message → Bytes → Bytes
assembled m params =
    tag_part m.tags ++ (prefix_part m.prefix ++ (canonical_command m.command ++ (params ++ crlf)))

unfoldable pub to_bytes : Message → Result Bytes
unfolding write_params is_middle no_crlf_nul valid_command any
to_bytes m = do
  refuse_if (not (valid_command m.command)) bad_command
  refuse_if (ltb max_params (length m.params)) too_many_params
  params ← write_params m.params
  refuse_if (ltb max_message_bytes (length (assembled m params))) too_long
  ok (assembled m params)
