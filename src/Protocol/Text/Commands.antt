-- ===== src/Protocol/Text/Commands.antt =====
-- Valid commands: their bytes, and that the canonical form is valid and canonical.
use ircat.Base.{
  ℕ, suc, ◌≡◌, refl, ap, ◌≢◌, inl, inr, Bool, true, false, [], ◌∷◌, ◌++◌, arith, ◌==◌, Bool-cases,
  length, All, all, Bytes,
}
use ircat.Protocol.Message.{is_digit}
use ircat.Protocol.Text.{
  trim_left, trim_suffix, to_upper_byte, to_upper, no_bytes, is_all_digits, is_letter,
  valid_command, canonical_command,
}

pub trim_suffix_end : (c : ℕ) (a : Bytes) → trim_suffix c (a ++ c ∷ []) ≡ a
unfolding trim_suffix
trim_suffix_end c [] = ground arith
trim_suffix_end c (x ∷ []) = ground arith
trim_suffix_end c (x ∷ y ∷ a) = ap (◌∷◌ x) (trim_suffix_end c (y ∷ a))

pub trim_left_start : (x : ℕ) (s : Bytes) → (x == b' ') ≡ false → trim_left (x ∷ s) ≡ x ∷ s
unfolding trim_left
trim_left_start x s h = rw h

-- A byte that a command may hold is none of those that begin or end the other parts of a line.
abbrev pub IsWordByte : ℕ → Type 0
IsWordByte x = ((x == b' ') ≡ false) × ((x == b'@') ≡ false) × ((x == b':') ≡ false)

word_of_letter : (x : ℕ) → is_letter x ≡ true → IsWordByte x
unfolding is_letter
word_of_letter x h = (ground arith, ground arith, ground arith)

word_of_digit : (x : ℕ) → is_digit x ≡ true → IsWordByte x
unfolding is_digit
word_of_digit x h = (ground arith, ground arith, ground arith)

pointwise :
    (p : ℕ → Bool) (P : ℕ → Type 0) (s : Bytes)
    → ((x : ℕ) → p x ≡ true → P x)
    → all p s ≡ true
    → All P s
unfolding all
pointwise p P [] f h = tt
pointwise p P (x ∷ s) f h = (f x (ground arith), pointwise p P s f (ground arith))

upper-is_letter : (x : ℕ) → is_letter x ≡ true → is_letter (to_upper_byte x) ≡ true
unfolding is_letter to_upper_byte
upper-is_letter x h = ground arith

upper_idem : (x : ℕ) → to_upper_byte (to_upper_byte x) ≡ to_upper_byte x
unfolding to_upper_byte
upper_idem x = ground arith

pub to_upper_idem : (s : Bytes) → to_upper (to_upper s) ≡ to_upper s
unfolding to_upper
to_upper_idem [] = refl
to_upper_idem (x ∷ s) = cc (upper_idem x, to_upper_idem s)

to_upper-letters : (s : Bytes) → all is_letter s ≡ true → all is_letter (to_upper s) ≡ true
unfolding all to_upper
to_upper-letters [] h = refl
to_upper-letters (x ∷ s) h = ground (arith, upper-is_letter x, to_upper-letters s)

letter_not_digit : (x : ℕ) → is_letter x ≡ true → is_digit x ≡ false
unfolding is_letter is_digit
letter_not_digit x h = ground arith

letters_not_digits :
    (x : ℕ) (s : Bytes) → all is_letter (x ∷ s) ≡ true → is_all_digits (x ∷ s) ≡ false
unfolding is_all_digits
letters_not_digits x s h = ground (arith, letter_not_digit x)

length-to_upper : (s : Bytes) → length (to_upper s) ≡ length s
unfolding to_upper
length-to_upper [] = refl
length-to_upper (x ∷ s) = ap suc (length-to_upper s)

-- A valid command made of letters is canonical in upper case.
record IsWord (s : Bytes) : Type 0 where
  valid : valid_command s ≡ true
  stable : canonical_command s ≡ s
  full : no_bytes s ≡ false
  words : All IsWordByte s

all_of_digits : (x : ℕ) (s : Bytes) → is_all_digits (x ∷ s) ≡ true → all is_digit (x ∷ s) ≡ true
unfolding is_all_digits
all_of_digits x s h = h

digits_nil : is_all_digits [] ≡ false
unfolding is_all_digits
digits_nil = refl

digits-IsWord : (s : Bytes) → is_all_digits s ≡ true → valid_command s ≡ true → IsWord s
digits-IsWord [] d h = cc digits_nil
digits-IsWord (x ∷ s) d h = record {
  valid = h;
  stable = rw d;
  full = refl;
  words = pointwise is_digit IsWordByte (x ∷ s) word_of_digit (all_of_digits x s d);
}

letters-IsWord : (s : Bytes) → s ≢ [] → all is_letter s ≡ true → IsWord (to_upper s)
unfolding to_upper valid_command
letters-IsWord [] ne h = absurd (ne refl)
letters-IsWord (x ∷ s) ne h =
    let upper = to_upper-letters (x ∷ s) h in
    let no_digits = letters_not_digits (to_upper_byte x) (to_upper s) upper in
    record {
      valid = rw (no_digits, upper) (ground arith);
      stable = rw no_digits (to_upper_idem (x ∷ s));
      full = refl;
      words = pointwise is_letter IsWordByte (to_upper (x ∷ s)) word_of_letter upper;
    }

canonical-IsWord : (s : Bytes) → valid_command s ≡ true → IsWord (canonical_command s)
unfolding valid_command
canonical-IsWord s h = elim (Bool-cases (is_all_digits s)) [
  | inl d ↦ rw d (digits-IsWord s d h)
  | inr n ↦ rw n (letters-IsWord s (λ e. cc (ap valid_command e, h)) (ground arith))
]

pub canonical-valid :
    (s : Bytes) → valid_command s ≡ true → valid_command (canonical_command s) ≡ true
canonical-valid s h = (canonical-IsWord s h).valid

pub canonical-canonical :
    (s : Bytes)
    → valid_command s ≡ true
    → canonical_command (canonical_command s) ≡ canonical_command s
canonical-canonical s h = (canonical-IsWord s h).stable

-- A canonical command is not empty and holds only word bytes.
pub canonical-words :
    (s : Bytes)
    → valid_command s ≡ true
    → (no_bytes (canonical_command s) ≡ false) × All IsWordByte (canonical_command s)
canonical-words s h = let w = canonical-IsWord s h in (w.full, w.words)
