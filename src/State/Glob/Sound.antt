-- ===== src/State/Glob/Sound.antt =====
-- The scan ends within its fuel, whatever the strings, and accepts only what matches.
use ircat.Base.{
  ℕ, zero, suc, ◌+◌, ◌*◌, ◌≤◌, ◌<◌, ◌≡◌, refl, sym, ◌∙◌, inl, inr, Bool, true, false, ◌||◌, Option,
  none, some, [], ◌∷◌, arith, ◌==◌, ==_iff, Bool-cases, length, Bytes,
}
use ircat.State.Glob.{answer, only_stars, Star, Round, backtrack, scan, fuel, glob_match}
use ircat.State.Glob.Spec.{Matches, take_one, stop, absorb, only_stars-Matches}

-- A byte test of the scan, passed: the pattern goes one byte on, also where both are stars.
pass :
    (c x : ℕ) {p s : Bytes} → (c == x || c == b'?') ≡ true → Matches p s → Matches (c ∷ p) (x ∷ s)
pass c x h d = elim (Bool-cases (c == b'*')) [
  | inl star ↦ absorb ((==_iff _ _).0 star) (stop ((==_iff _ _).0 star) d)
  | inr plain ↦ take_one (record { fits = h; plain = ground arith }) d
]

-- The scan gave an answer, and a yes is right about `G`.
abbrev Accepts : Type 0 → Option Bool → Type 0
Accepts G none = ⊥
Accepts G (some true) = G
Accepts G (some false) = Unit

module _ (G : Type 0) (k : ℕ) where
  -- A retry at the saved star answers the question; `m` bounds the text that is left for it.
  abbrev Held : ℕ → Star → Type 0
  Held m none = Unit
  Held m (some (q, t)) =
      ((c : ℕ) → c ≡ b'*' → Matches (c ∷ q) t → G) × (length t ≤ m) × (length q < k)

  record Sound (f m : ℕ) (p s : Bytes) (star : Star) : Type 0 where
    here : Matches p s → G
    held : Held m star
    text : length s ≤ m
    pattern : length p < k
    enough : m * k + length p < f

  only_stars-Accepts : (p : Bytes) → (Matches p [] → G) → Accepts G (some (only_stars p))
  only_stars-Accepts p h = elim (Bool-cases (only_stars p)) [
    | inl e ↦ rw e (h (only_stars-Matches p e))
    | inr e ↦ rw e tt
  ]

  backtrack-Accepts :
      {f : ℕ} {p s : Bytes} (m : ℕ) (star : Star) (next : Round)
      → ((m' : ℕ) (p' s' : Bytes) (star' : Star)
          → Sound f m' p' s' star'
          → Accepts G (next p' s' star'))
      → Sound (suc f) m p s star
      → Accepts G (backtrack star next)
  unfolding backtrack
  backtrack-Accepts m none next ih i = tt
  backtrack-Accepts m (some (q, [])) next ih i =
      only_stars-Accepts q (λ d. i.held.0 b'*' refl (stop refl d))
  backtrack-Accepts zero (some (q, y ∷ t)) next ih i = absurd (omega arith)
  backtrack-Accepts (suc m) (some (q, y ∷ t)) next ih i = ih m q t (some (q, t)) (record {
    here = λ d. i.held.0 b'*' refl (absorb refl (stop refl d));
    held = ((λ c e d. i.held.0 c e (absorb e d)), omega arith, i.held.2);
    text = omega arith;
    pattern = i.held.2;
    enough = omega arith;
  })

  scan-Accepts :
      (f m : ℕ) (p s : Bytes) (star : Star) → Sound f m p s star → Accepts G (scan f p s star)
  unfolding scan
  scan-Accepts zero m p s star i = omega arith
  scan-Accepts (suc f) m p [] star i = only_stars-Accepts p i.here
  scan-Accepts (suc f) m [] (x ∷ s) star i = backtrack-Accepts m star (scan f) (scan-Accepts f) i
  scan-Accepts (suc f) m (c ∷ p) (x ∷ s) star i = elim (Bool-cases (c == x || c == b'?')) [
    | inl fits ↦ rw fits (
        scan-Accepts f m p s star (record {
          here = λ d. i.here (pass c x fits d);
          held = i.held;
          text = omega arith;
          pattern = omega arith;
          enough = omega arith;
        }))
    | inr other ↦ rw other (elim (Bool-cases (c == b'*')) [
      | inl e ↦ rw e (
          scan-Accepts f m p (x ∷ s) (some (p, x ∷ s)) (record {
            here = λ d. i.here (stop ((==_iff _ _).0 e) d);
            held =
                ((λ c' e' d. i.here (rw (e' ∙ sym ((==_iff c _).0 e)) at d)), i.text, omega arith);
            text = i.text;
            pattern = omega arith;
            enough = omega arith;
          }))
      | inr e ↦ rw e (backtrack-Accepts m star (scan f) (scan-Accepts f) i)
    ])
  ]

glob_match-Accepts : (p s : Bytes) → Accepts (Matches p s) (scan (fuel p s) p s none)
unfolding fuel
glob_match-Accepts p s = scan-Accepts (Matches p s) (length p + 1) _ (length s) p s none (record {
  here = λ d. d;
  held = tt;
  text = omega arith;
  pattern = omega arith;
  enough = omega arith;
})

Accepts-answer : (G : Type 0) (r : Option Bool) → Accepts G r → r ≡ some (answer r)
Accepts-answer G none h = absurd h
Accepts-answer G (some b) h = refl

yes_of_Accepts : (G : Type 0) (r : Option Bool) → Accepts G r → answer r ≡ true → G
yes_of_Accepts G none h e = absurd h
yes_of_Accepts G (some true) h e = h
yes_of_Accepts G (some false) h e = cc

-- The loop of `globMatch` ends within the fuel given, on every pattern and text, with the answer
-- of `globMatch`.
pub scan_total : (p s : Bytes) → scan (fuel p s) p s none ≡ some (glob_match p s)
unfolding glob_match
scan_total p s = Accepts-answer _ _ (glob_match-Accepts p s)

-- What `globMatch` accepts matches the pattern's meaning, in any text.
pub glob_match-Matches : (p s : Bytes) → glob_match p s ≡ true → Matches p s
unfolding glob_match
glob_match-Matches p s h = yes_of_Accepts _ _ (glob_match-Accepts p s) h
