-- ===== src/Protocol/Tags.antt =====
-- The IRCv3 tags: `parseTags` and `unescapeTagValue` of internal/protocol/parse.go, and
-- `escapeTagValue` and the tag part of `Bytes` of internal/protocol/encode.go.
pub mod Escape
pub mod Pieces
pub mod RoundTrip
pub mod Sort
use ircat.Base.{
  ℕ, Bool, true, false, not, ◌||◌, none, some, List, [], ◌∷◌, ◌++◌, leb, ◌==◌, if◌then◌else◌, any,
  Bytes, bytes_has_eq,
}
use ircat.Base.GoMap.{GoMap, put}
use ircat.Protocol.Message.{◌>>=◌, Result, ok, err, bad_tags}
use ircat.Protocol.Text.{cut, split, no_bytes}

unescape_byte : ℕ → ℕ
unescape_byte d =
    if d == b':'
    then b';'
    else if d == b's'
    then b' '
    else if d == b'\\'
    then b'\\'
    else if d == b'r'
    then b'\r'
    else if d == b'n'
    then b'\n'
    else d

unescape_loop : Bytes → Bytes
unescape_loop [] = []
unescape_loop (c ∷ []) = if c == b'\\' then [] else c ∷ []
unescape_loop (c ∷ d ∷ s) =
    let plain = c ∷ unescape_loop (d ∷ s) in
    let escaped = unescape_byte d ∷ unescape_loop s in if not (c == b'\\') then plain else escaped

-- `strings.ContainsRune(s, '\\')` and `strings.ContainsAny`
abbrev pub has_backslash : Bytes → Bool
has_backslash = any (λ c. c == b'\\')

unfoldable pub unescape_tag_value : Bytes → Bytes
unfolding unescape_loop unescape_byte any
unescape_tag_value s = if not (has_backslash s) then s else unescape_loop s

is_special : ℕ → Bool
is_special c = c == b';' || c == b' ' || c == b'\\' || c == b'\r' || c == b'\n'

pub escape_byte : ℕ → Bytes
escape_byte c =
    if c == b';'
    then b'\\' ∷ b':' ∷ []
    else if c == b' '
    then b'\\' ∷ b's' ∷ []
    else if c == b'\\'
    then b'\\' ∷ b'\\' ∷ []
    else if c == b'\r'
    then b'\\' ∷ b'r' ∷ []
    else if c == b'\n'
    then b'\\' ∷ b'n' ∷ []
    else c ∷ []

escape_loop : Bytes → Bytes
escape_loop [] = []
escape_loop (c ∷ s) = escape_byte c ++ escape_loop s

unfoldable pub escape_tag_value : Bytes → Bytes
unfolding escape_loop escape_byte is_special any
escape_tag_value s = if not (any is_special s) then s else escape_loop s

-- one round of the loop of `parseTags`
abbrev pub key_and_raw : Bytes → Bytes × Bytes
key_and_raw tag = elim (cut b'=' tag) [ none ↦ (tag, []) | some (key, raw) ↦ (key, raw) ]

unfoldable pub parse_tag : Bytes → GoMap Bytes Bytes → Result (GoMap Bytes Bytes)
parse_tag tag out =
    let (key, raw) = key_and_raw tag in
    if no_bytes tag
    then err bad_tags
    else if no_bytes key
    then err bad_tags
    else ok (put key (unescape_tag_value raw) out)

unfoldable pub parse_each : List Bytes → GoMap Bytes Bytes → Result (GoMap Bytes Bytes)
parse_each [] out = ok out
parse_each (tag ∷ tags) out = do out' ← parse_tag tag out; parse_each tags out'

unfoldable pub parse_tags : Bytes → Result (GoMap Bytes Bytes)
unfolding parse_each parse_tag unescape_tag_value cut split
parse_tags body = if no_bytes body then err bad_tags else parse_each (split b';' body) []

-- `sort.Strings`
bytes_leb : Bytes → Bytes → Bool
bytes_leb [] b = true
bytes_leb (x ∷ a) [] = false
bytes_leb (x ∷ a) (y ∷ b) = if x == y then bytes_leb a b else leb x y

insert_tag : Bytes → Bytes → GoMap Bytes Bytes → GoMap Bytes Bytes
insert_tag k v [] = (k, v) ∷ []
insert_tag k v ((j, w) ∷ m) =
    let later = (j, w) ∷ insert_tag k v m in if bytes_leb k j then (k, v) ∷ (j, w) ∷ m else later

unfoldable pub sort_tags : GoMap Bytes Bytes → GoMap Bytes Bytes
unfolding insert_tag bytes_leb
sort_tags [] = []
sort_tags ((k, v) ∷ m) = insert_tag k v (sort_tags m)

-- what is written for one key
abbrev pub written_tag : Bytes → Bytes → Bytes
written_tag k v = if no_bytes v then k else k ++ (b'=' ∷ escape_tag_value v)

-- the loop over the sorted keys
unfoldable pub write_tags : GoMap Bytes Bytes → Bytes
unfolding escape_tag_value
write_tags [] = []
write_tags ((k, v) ∷ []) = written_tag k v
write_tags ((k, v) ∷ (j, w) ∷ m) = written_tag k v ++ (b';' ∷ write_tags ((j, w) ∷ m))
