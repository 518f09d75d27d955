-- ===== src/State/Glob/Evasion.antt =====
-- A star byte in the text is taken by a star of the pattern as a plain byte, and the scan then
-- has no star to go back to.
use ircat.Base.{
  ℕ, zero, suc, ◌≡◌, refl, ap, ◌≢◌, inl, inr, true, false, none, [], ◌∷◌, ◌++◌, arith, Bool-cases,
  length, length-append, Bytes,
}
use ircat.State.Glob.{only_stars, backtrack, scan, answer, glob_match}
use ircat.State.Glob.Spec.{Matches, Takes, take_one, done, stop, absorb, IsStarFree}

only_stars_free : (q : Bytes) → IsStarFree q → only_stars q ≡ true → q ≡ []
unfolding only_stars
only_stars_free [] free h = refl
only_stars_free (c ∷ q) free h = absurd (ground arith)

-- With no star in the pattern and none saved, a text of another length is refused.
scan_exact :
    (f : ℕ) (q s : Bytes) → IsStarFree q → answer (scan f q s none) ≡ true → length q ≡ length s
unfolding scan backtrack
scan_exact zero q s free h = cc
scan_exact (suc f) q [] free h = ap length (only_stars_free q free h)
scan_exact (suc f) [] (x ∷ s) free h = cc
scan_exact (suc f) (c ∷ q) (x ∷ s) free h = ground (arith, scan_exact f q s free.1)

scan_star :
    (f : ℕ) (q s : Bytes)
    → IsStarFree q
    → answer (scan f (b'*' ∷ q) (b'*' ∷ s) none) ≡ true
    → length q ≡ length s
unfolding scan
scan_star zero q s free h = cc
scan_star (suc f) q s free h = scan_exact f q s free h

Takes-self : (c : ℕ) → c ≢ b'*' → Takes c c
Takes-self c n = record { fits = ground arith; plain = n }

Matches-self : (q : Bytes) → IsStarFree q → Matches q q
Matches-self [] free = done
Matches-self (c ∷ q) free = take_one (Takes-self c free.0) (Matches-self q free.1)

absorb_all : (t : Bytes) {q s : Bytes} → Matches (b'*' ∷ q) s → Matches (b'*' ∷ q) (t ++ s)
absorb_all [] d = d
absorb_all (x ∷ t) d = absorb refl (absorb_all t d)

-- For a star-free rest `q` of a pattern and a non-empty `t`: the text `*` t q is one that the
-- pattern `*` q means, and `globMatch` refuses it.
pub glob_match_evasion :
    (t q : Bytes)
    → IsStarFree q
    → t ≢ []
    → Matches (b'*' ∷ q) (b'*' ∷ t ++ q) × (glob_match (b'*' ∷ q) (b'*' ∷ t ++ q) ≡ false)
unfolding glob_match
glob_match_evasion [] q free n = absurd (n refl)
glob_match_evasion (x ∷ t) q free n = (
  absorb_all (b'*' ∷ x ∷ t) (stop refl (Matches-self q free)),
  elim (Bool-cases (glob_match (b'*' ∷ q) (b'*' ∷ (x ∷ t) ++ q))) [
    | inr e ↦ e
    | inl e ↦ absurd (omega (arith, length-append t q, scan_star _ q (x ∷ t ++ q) free e))
  ],
)
