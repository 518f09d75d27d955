-- ===== src/Server/Atoi.antt =====
-- Go's `strconv.Atoi` on a 64-bit `int`.
pub mod Digits
use ircat.Base.{
  ℕ, zero, suc, ◌+◌, ◌-◌, ◌*◌, ◌^◌, ◌&&◌, Option, none, some, [], ◌∷◌, ltb, leb, ◌==◌,
  if◌then◌else◌, Bytes,
}
use ircat.Base.Int.{ℤ, pos, negsuc}

-- the digits of a text, most significant first
digits_value : ℕ → Bytes → Option ℕ
digits_value n [] = some n
digits_value n (c ∷ s) =
    let rest = digits_value (10 * n + (c - b'0')) s in
    if leb b'0' c && leb c b'9' then rest else none

unsigned : Bytes → Option ℕ
unfolding digits_value
unsigned [] = none
unsigned (c ∷ s) = digits_value 0 (c ∷ s)

below : ℕ → Option ℕ → Option ℕ
below limit none = none
below limit (some n) = if ltb n limit then some n else none

abbrev negative : Option ℕ → Option ℤ
negative none = none
negative (some zero) = some (pos 0)
negative (some (suc n)) = some (negsuc n)

abbrev positive : Option ℕ → Option ℤ
positive none = none
positive (some n) = some (pos n)

unfoldable pub atoi : Bytes → Option ℤ
unfolding unsigned below
atoi [] = none
atoi (c ∷ s) =
    if c == b'-'
    then negative (below (2 ^ 63 + 1) (unsigned s))
    else if c == b'+'
    then positive (below (2 ^ 63) (unsigned s))
    else positive (below (2 ^ 63) (unsigned (c ∷ s)))
