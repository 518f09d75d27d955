-- ===== src/State/Glob/Complete.antt =====
-- On texts with no star byte the scan misses no match.
use ircat.Base.{
  ℕ, zero, suc, ◌≤◌, ◌≡◌, refl, sym, ◌≢◌, ◌↔◌, inl, inr, Bool, true, false, ◌||◌, Option, none,
  some, [], ◌∷◌, arith, ◌==◌, ==_iff, Bool-cases, length, Bytes,
}
use ircat.State.Glob.{only_stars, Star, Round, backtrack, scan, fuel, glob_match}
use ircat.State.Glob.Spec.{
  Matches, stop, IsStarFree, Matches-only_stars, absorb_of_not, star_at_end, tail_of_take,
  merge_stars, drop_first,
}
use ircat.State.Glob.Sound.{scan_total, glob_match-Matches}

abbrev Misses : Type 0 → Option Bool → Type 0
Misses G (some false) = ¬ G
Misses G _ = Unit

only_stars-Misses : (G : Type 0) (p : Bytes) → (G → Matches p []) → Misses G (some (only_stars p))
only_stars-Misses G p h = elim (Bool-cases (only_stars p)) [
  | inl e ↦ rw e tt
  | inr e ↦ rw e (λ g. cc (Matches-only_stars (h g)))
]

-- A pattern byte that fits in a star-free text is no star.
plain_of_fits : (c x : ℕ) → x ≢ b'*' → (c == x || c == b'?') ≡ true → c ≢ b'*'
plain_of_fits c x n h = ground arith

module _ (G : Type 0) where
  abbrev Kept : Bytes → Bytes → Star → Type 0
  Kept p s none = G → Matches p s
  Kept p s (some (q, t)) =
      (G → Matches (b'*' ∷ q) t)
      × (Matches q t → Matches p s)
      × (length s ≤ length t)
      × IsStarFree t

  record Complete (p s : Bytes) (star : Star) : Type 0 where
    ahead : G → Matches (b'*' ∷ p) s
    kept : Kept p s star
    free : IsStarFree s

  restart : (p s : Bytes) → (G → Matches (b'*' ∷ p) s) → IsStarFree s → Complete p s (some (p, s))
  restart p s g free = record { ahead = g; kept = (g, (λ d. d), omega arith, free); free = free }

  Kept-step :
      (c x : ℕ) (p s : Bytes) (star : Star) → c ≢ b'*' → Kept (c ∷ p) (x ∷ s) star → Kept p s star
  Kept-step c x p s none n h = λ g. (tail_of_take n (h g)).1
  Kept-step c x p s (some (q, t)) n (g, down, shorter, free) =
      (g, (λ d. (tail_of_take n (down d)).1), omega arith, free)

  backtrack-Misses :
      (p : Bytes) (x : ℕ) (s : Bytes) (star : Star) (next : Round)
      → ((p' s' : Bytes) (star' : Star) → Complete p' s' star' → Misses G (next p' s' star'))
      → Complete p (x ∷ s) star
      → ¬ Matches p (x ∷ s)
      → Misses G (backtrack star next)
  unfolding backtrack
  backtrack-Misses p x s none next ih i n = λ g. n (i.kept g)
  backtrack-Misses p x s (some (q, [])) next ih i n = absurd (omega (arith, i.kept.2))
  backtrack-Misses p x s (some (q, y ∷ t)) next ih i n =
      let (g, down, shorter, free) = i.kept in
      ih q t (some (q, t)) (restart q t (λ h. absorb_of_not refl (g h) (λ d. n (down d))) free.1)

  scan-Misses : (f : ℕ) (p s : Bytes) (star : Star) → Complete p s star → Misses G (scan f p s star)
  unfolding scan
  scan-Misses zero p s star i = tt
  scan-Misses (suc f) p [] star i = only_stars-Misses G p (λ g. star_at_end refl (i.ahead g))
  scan-Misses (suc f) [] (x ∷ s) star i =
      backtrack-Misses [] x s star (scan f) (scan-Misses f) i (λ d. elim d [ ])
  scan-Misses (suc f) (c ∷ p) (x ∷ s) star i = elim (Bool-cases (c == x || c == b'?')) [
    | inl fits ↦
        let n = plain_of_fits c x i.free.0 fits in
        rw fits (
          scan-Misses f p s star (record {
            ahead = λ g. drop_first s refl n (i.ahead g);
            kept = Kept-step c x p s star n i.kept;
            free = i.free.1;
          }))
    | inr other ↦ rw other (elim (Bool-cases (c == b'*')) [
      | inl e ↦ rw e (
          scan-Misses f p (x ∷ s) (some (p, x ∷ s)) (
            restart p (x ∷ s)
              (λ g. rw (sym ((==_iff c _).0 e)) (merge_stars refl ((==_iff c _).0 e) (i.ahead g)))
              i.free))
      | inr e ↦ rw e (
          backtrack-Misses (c ∷ p) x s star (scan f) (scan-Misses f) i
            (λ d. cc (other, (tail_of_take (λ h. ground arith) d).0.fits)))
    ])
  ]

no_of_Misses : {G : Type 0} (b : Bool) → Misses G (some b) → G → b ≡ true
no_of_Misses true h g = refl
no_of_Misses false h g = absurd (h g)

-- On a text that holds no `*` byte, `globMatch` accepts exactly the texts that the pattern means,
-- as an order-free relation says it.
pub glob_match_iff : (p s : Bytes) → IsStarFree s → (glob_match p s ≡ true) ↔ Matches p s
glob_match_iff p s free = (
  glob_match-Matches p s,
  no_of_Misses (glob_match p s) (
      rw scan_total at (
        scan-Misses (Matches p s) (fuel p s) p s none
          (record { ahead = stop refl; kept = λ d. d; free = free }))),
)
