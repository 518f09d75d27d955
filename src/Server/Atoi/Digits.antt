-- ===== src/Server/Atoi/Digits.antt =====
-- `Atoi` reads what `itoaPositive` writes.
use native.Mathlib.Nat.{pow-suc}
use ircat.Base.{
  ℕ, zero, suc, ◌+◌, ◌-◌, ◌*◌, ◌/◌, ◌%◌, ◌^◌, ◌<◌, ◌≡◌, refl, sym, ap, ◌∙◌, ◌⊎◌, inl, inr, Bool,
  true, ◌&&◌, some, [], ◌∷◌, arith, leb, ◌==◌, ==_iff, Bool-cases, Bytes,
}
use ircat.Base.Int.{pos}
use ircat.State.Channel.Modes.{itoa_loop, itoa_positive}
use ircat.Server.Atoi.{digits_value, atoi}

-- Digits only, the first of them there.
abbrev is_digit : ℕ → Bool
is_digit c = leb b'0' c && leb c b'9'

abbrev StartsDigit : Bytes → Type 0
StartsDigit [] = ⊥
StartsDigit (c ∷ _) = is_digit c ≡ true

digits_zero : (n : ℕ) (buf : Bytes) → n ≡ 0 → digits_value 0 buf ≡ digits_value n buf
digits_zero n buf h = rw h

one_digit :
    (n : ℕ) (buf : Bytes) → digits_value (n / 10) ((b'0' + n % 10) ∷ buf) ≡ digits_value n buf
unfolding digits_value
one_digit n buf =
    let ten : 10 * (n / 10) + (b'0' + n % 10 - b'0') ≡ n = omega arith in
    let digit : is_digit (b'0' + n % 10) ≡ true = ground arith in rw (digit, ten)

itoa_loop-digits :
    (i n : ℕ) (buf : Bytes)
    → n < 10 ^ i
    → StartsDigit buf ⊎ (0 < n)
    → (out : Bytes) × (itoa_loop i n buf ≡ some out)
      × (digits_value 0 out ≡ digits_value n buf)
      × StartsDigit out
unfolding itoa_loop
itoa_loop-digits zero n buf h (inl s) = (buf, ground arith, digits_zero n buf (omega arith), s)
itoa_loop-digits zero n buf h (inr s) = absurd (omega arith)
itoa_loop-digits (suc i) n buf h s = elim (Bool-cases (n == 0)) [
  | inl e ↦ elim s [
    | inl there ↦ (buf, rw e refl, digits_zero n buf ((==_iff n 0).0 e), there)
    | inr more ↦ absurd (ground arith)
  ]
  | inr e ↦
      let small : n / 10 < 10 ^ i = omega (arith, pow-suc 10 i) in
      let digit : is_digit (b'0' + n % 10) ≡ true = ground arith in
      let (out, found, value, start) =
        itoa_loop-digits i (n / 10) ((b'0' + n % 10) ∷ buf) small (inl digit) in
      (out, rw e found, value ∙ one_digit n buf, start)
]

atoi_of_digits :
    (out : Bytes) (n : ℕ)
    → StartsDigit out
    → digits_value 0 out ≡ some n
    → n < 2 ^ 63
    → atoi out ≡ some (pos n)
unfolding atoi
atoi_of_digits [] n s h small = elim s [ ]
atoi_of_digits (c ∷ out) n s h small = ground arith

digits_end : (n : ℕ) → digits_value n [] ≡ some n
unfolding digits_value
digits_end n = refl

atoi_zero : atoi (b'0' ∷ []) ≡ some (pos 0)
unfolding atoi digits_value
atoi_zero = refl

-- A number below 2^63 is read back.
pub atoi-itoa_positive : (n : ℕ) → n < 2 ^ 63 → atoi (itoa_positive (pos n)) ≡ some (pos n)
unfolding itoa_positive
atoi-itoa_positive n h = elim (Bool-cases (n == 0)) [
  | inl e ↦ rw (e, atoi_zero) (ap (λ (k : ℕ). some (pos k)) (sym ((==_iff n 0).0 e)))
  | inr e ↦
      let (out, found, value, start) =
        itoa_loop-digits 20 n [] (omega arith) (inr (ground arith)) in
      rw (e, found) (atoi_of_digits out n start (value ∙ digits_end n) h)
]
