-- ===== src/State/Glob/Spec.antt =====
-- What a hostmask pattern means, with no order of search in it.
use ircat.Base.{ℕ, ◌≡◌, refl, ◌≢◌, true, not, ◌||◌, [], ◌∷◌, arith, ◌==◌, All, all, Bytes}
use ircat.State.Glob.{only_stars}

-- A pattern byte that stands for one byte of the text: `?`, or itself.
pub record Takes (c x : ℕ) : Type 0 where
  pub fits : (c == x || c == b'?') ≡ true
  pub plain : c ≢ b'*'

-- `*` stands for any run, `?` for any one byte, and every other byte for itself.
pub data Matches : Bytes → Bytes → Type 0 where
  done : Matches [] []
  take_one : {c x : ℕ} {p s : Bytes} → Takes c x → Matches p s → Matches (c ∷ p) (x ∷ s)
  stop : {c : ℕ} {p s : Bytes} → c ≡ b'*' → Matches p s → Matches (c ∷ p) s
  absorb : {c x : ℕ} {p s : Bytes} → c ≡ b'*' → Matches (c ∷ p) s → Matches (c ∷ p) (x ∷ s)

abbrev pub IsStarFree : Bytes → Type 0
IsStarFree = All (λ x. x ≢ b'*')

-- A text that a test finds to hold no star.
pub IsStarFree-all : (s : Bytes) → all (λ x. not (x == b'*')) s ≡ true → IsStarFree s
unfolding all
IsStarFree-all [] h = tt
IsStarFree-all (x ∷ s) h = ((λ e. ground arith), IsStarFree-all s (ground arith))

pub only_stars-Matches : (p : Bytes) → only_stars p ≡ true → Matches p []
unfolding only_stars
only_stars-Matches [] h = done
only_stars-Matches (c ∷ p) h = stop (ground arith) (only_stars-Matches p (ground arith))

pub Matches-only_stars : {p : Bytes} → Matches p [] → only_stars p ≡ true
unfolding only_stars
Matches-only_stars done = refl
Matches-only_stars (stop e d) = ground (arith, Matches-only_stars d)

module _ {c : ℕ} {p : Bytes} (star : c ≡ b'*') where
  -- A star can begin with nothing, or go on after the first byte.
  pub absorb_of_not :
      {x : ℕ} {s : Bytes} → Matches (c ∷ p) (x ∷ s) → ¬ Matches p (x ∷ s) → Matches (c ∷ p) s
  absorb_of_not (take_one t d) n = absurd (t.plain star)
  absorb_of_not (stop e d) n = absurd (n d)
  absorb_of_not (absorb e d) n = d

  pub star_at_end : Matches (c ∷ p) [] → Matches p []
  star_at_end (stop e d) = d

pub tail_of_take :
    {c x : ℕ} {p s : Bytes} → c ≢ b'*' → Matches (c ∷ p) (x ∷ s) → Takes c x × Matches p s
tail_of_take n (take_one t d) = (t, d)
tail_of_take n (stop e d) = absurd (n e)
tail_of_take n (absorb e d) = absurd (n e)

no_end : {c : ℕ} {p : Bytes} → c ≢ b'*' → ¬ Matches (c ∷ p) []
no_end n (stop e d) = n e

-- The star `b` in front of a star adds nothing.
pub merge_stars :
    {b c : ℕ} {p s : Bytes} → b ≡ b'*' → c ≡ b'*' → Matches (b ∷ c ∷ p) s → Matches (c ∷ p) s
merge_stars hb hc (take_one t d) = absurd (t.plain hb)
merge_stars hb hc (stop e d) = d
merge_stars hb hc (absorb e d) = absorb hc (merge_stars hb hc d)

-- Why the loop may commit to the first place where a byte fits: wherever the rest begins, it
-- begins after that byte.
pub drop_first :
    {b c : ℕ} {p : Bytes} (s : Bytes) {x : ℕ}
    → b ≡ b'*'
    → c ≢ b'*'
    → Matches (b ∷ c ∷ p) (x ∷ s)
    → Matches (b ∷ p) s
drop_first s hb n (take_one t d) = absurd (t.plain hb)
drop_first s hb n (stop e d) = stop hb (tail_of_take n d).1
drop_first [] hb n (absorb e d) = absurd (no_end n (star_at_end hb d))
drop_first (x ∷ s) hb n (absorb e d) = absorb hb (drop_first s hb n d)
