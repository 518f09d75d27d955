-- ===== src/State/Channel/Modes/Decimal.antt =====
-- `itoaPositive` writes the decimal digits of a number, and its buffer of 20 bytes is enough for
-- every `int`.
use native.Mathlib.Nat.{pow-suc}
use ircat.Base.{
  ℕ, zero, suc, ◌+◌, ◌-◌, ◌*◌, ◌/◌, ◌%◌, ◌^◌, ◌<◌, ◌≡◌, refl, sym, ap, ◌∙◌, inl, inr, some, [], ◌∷◌,
  arith, ◌==◌, ==_iff, Bool-cases, Bytes,
}
use ircat.Base.Int.{pos}
use ircat.State.Channel.Modes.{itoa_loop, itoa_positive}

-- the number that digits stand for, behind `acc`
pub decimal : ℕ → Bytes → ℕ
decimal acc [] = acc
decimal acc (d ∷ s) = decimal (acc * 10 + (d - b'0')) s

decimal_zero : (n : ℕ) (buf : Bytes) → n ≡ 0 → decimal 0 buf ≡ decimal n buf
decimal_zero n buf h = rw h

decimal_digit : (n : ℕ) (buf : Bytes) → decimal (n / 10) ((b'0' + n % 10) ∷ buf) ≡ decimal n buf
unfolding decimal
decimal_digit n buf = ap (λ a. decimal a buf) (omega arith)

itoa_loop-decimal :
    (i n : ℕ) (buf : Bytes)
    → n < 10 ^ i
    → (out : Bytes) × (itoa_loop i n buf ≡ some out) × (decimal 0 out ≡ decimal n buf)
unfolding itoa_loop
itoa_loop-decimal zero n buf h = (buf, ground arith, decimal_zero n buf (omega arith))
itoa_loop-decimal (suc i) n buf h = elim (Bool-cases (n == 0)) [
  | inl e ↦ (buf, rw e refl, decimal_zero n buf ((==_iff n 0).0 e))
  | inr e ↦
      let small : n / 10 < 10 ^ i = omega (arith, pow-suc 10 i) in
      let (out, found, value) = itoa_loop-decimal i (n / 10) ((b'0' + n % 10) ∷ buf) small in
      (out, rw e found, value ∙ decimal_digit n buf)
]

-- For every number below 2^63 the digits that itoaPositive writes read back as the number, so that
-- none is lost at the front of the buffer.
pub decimal-itoa_positive : (n : ℕ) → n < 2 ^ 63 → decimal 0 (itoa_positive (pos n)) ≡ n
unfolding itoa_positive decimal
decimal-itoa_positive n h = elim (Bool-cases (n == 0)) [
  | inl e ↦ rw e (sym ((==_iff n 0).0 e))
  | inr e ↦ let (out, found, value) = itoa_loop-decimal 20 n [] (omega arith) in rw (e, found) value
]
