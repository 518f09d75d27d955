-- ===== src/Protocol/Text.antt =====
-- What parser and encoder use of Go's `strings`, and the command grammar of
-- internal/protocol/parse.go.
pub mod Commands
use ircat.Base.{
  ℕ, ◌-◌, Bool, true, false, ◌&&◌, ◌||◌, Option, none, some, List, [], ◌∷◌, leb, ◌==◌,
  if◌then◌else◌, length, all, Bytes,
}
use ircat.Protocol.Message.{is_digit}

-- `strings.TrimSuffix` of one byte
unfoldable pub trim_suffix : ℕ → Bytes → Bytes
trim_suffix c [] = []
trim_suffix c (x ∷ []) = if x == c then [] else x ∷ []
trim_suffix c (x ∷ y ∷ s) = x ∷ trim_suffix c (y ∷ s)

-- `strings.IndexByte`, with the strings before and behind the byte found
unfoldable pub cut : ℕ → Bytes → Option (Bytes × Bytes)
cut c [] = none
cut c (x ∷ s) =
    let rest = cut c s in
    if x == c then some ([], s) else elim rest [ none ↦ none | some (a, b) ↦ some (x ∷ a, b) ]

-- `strings.TrimLeft(s, " ")`
unfoldable pub trim_left : Bytes → Bytes
trim_left [] = []
trim_left (x ∷ s) = let rest = trim_left s in if x == b' ' then rest else x ∷ s

-- `strings.Split` by one byte
abbrev pub onto_first : ℕ → List Bytes → List Bytes
onto_first x [] = (x ∷ []) ∷ []
onto_first x (p ∷ ps) = (x ∷ p) ∷ ps

unfoldable pub split : ℕ → Bytes → List Bytes
split c [] = [] ∷ []
split c (x ∷ s) = if x == c then [] ∷ split c s else onto_first x (split c s)

unfoldable pub to_upper_byte : ℕ → ℕ
to_upper_byte c = if leb b'a' c && leb c b'z' then c - 32 else c

-- `strings.ToUpper`, on the ASCII letters that a valid command has
unfoldable pub to_upper : Bytes → Bytes
unfolding to_upper_byte
to_upper [] = []
to_upper (c ∷ s) = to_upper_byte c ∷ to_upper s

abbrev pub no_bytes : Bytes → Bool
no_bytes [] = true
no_bytes (_ ∷ _) = false

unfoldable pub is_all_digits : Bytes → Bool
unfolding is_digit all
is_all_digits s = if no_bytes s then false else all is_digit s

unfoldable pub is_letter : ℕ → Bool
is_letter c = leb b'a' c && leb c b'z' || leb b'A' c && leb c b'Z'

unfoldable pub valid_command : Bytes → Bool
valid_command s =
    if length s == 0 then false else if is_all_digits s then length s == 3 else all is_letter s

-- the form in which parser and encoder keep a command
abbrev pub canonical_command : Bytes → Bytes
canonical_command s = if is_all_digits s then s else to_upper s
