-- ===== src/Logging/Ring/Tail.antt =====
-- What a reader of a ring gets, against the list of all entries appended.
use mathlib.Core.Path.{subst}
use ircat.Base.{
  ℕ, zero, suc, ◌+◌, ◌-◌, ◌≤◌, ◌<◌, ◌≡◌, refl, sym, ap, ◌∙◌, inl, inr, true, some, List, [], ◌∷◌,
  arith, ltb, if◌then◌else◌, Bool-cases, length,
}
use ircat.Base.Int.{ℤ}
use ircat.Logging.Ring.{
  Numbered, Ring, new_ring, snapshot, newer_suffix, newer_each, since, bot_since,
}
use ircat.Logging.Ring.Holds.{
  capacity_of, drop, numbered, append_all, Holds, append_all-Holds, new_ring_lem, new-Holds,
  snapshot-drop, append_all-capacity, length-numbered,
}

none_left : (seq n : ℕ) → seq < n + 1 → seq - n ≡ 0
none_left seq n h = omega (arith, h)

one_more : (seq n : ℕ) → n + 1 ≤ seq → suc (seq - (n + 1)) ≡ seq - n
one_more seq n h = omega (arith, h)

module _ {ℓ} {A : Type ℓ} where
  drop-nil : (n : ℕ) → drop {A = A} n [] ≡ []
  drop-nil zero = refl
  drop-nil (suc n) = refl

  drop-drop : (i k m : ℕ) (xs : List A) → k + i ≡ m → drop i (drop k xs) ≡ drop m xs
  drop-drop i zero m xs h = ap (λ j. drop j xs) (omega (arith, h))
  drop-drop i (suc k) m [] h = drop-nil i ∙ sym (drop-nil m)
  drop-drop i (suc k) zero (x ∷ xs) h = absurd (omega (arith, h))
  drop-drop i (suc k) (suc m) (x ∷ xs) h = drop-drop i k m xs (omega (arith, h))

module _ {ℓ} {A : Type ℓ} where
  drop-numbered : (k n : ℕ) (xs : List A) → drop k (numbered n xs) ≡ numbered (n + k) (drop k xs)
  unfolding numbered
  drop-numbered zero n xs = ap (λ m. numbered m xs) (omega arith)
  drop-numbered (suc k) n [] = refl
  drop-numbered (suc k) n (x ∷ xs) =
      drop-numbered k (n + 1) xs ∙ ap (λ m. numbered m (drop k xs)) (omega arith)

  newer_suffix-numbered :
      (seq n : ℕ) (xs : List A) → newer_suffix seq (numbered n xs) ≡ drop (seq - n) (numbered n xs)
  unfolding newer_suffix numbered
  newer_suffix-numbered seq n [] = sym (drop-nil (seq - n))
  newer_suffix-numbered seq n (x ∷ xs) = elim (Bool-cases (ltb seq (n + 1))) [
    | inl e ↦ rw (e, none_left seq n (ground arith)) refl
    | inr e ↦ rw e (
        newer_suffix-numbered seq (n + 1) xs
        ∙ ap (λ k. drop k ((n + 1, x) ∷ numbered (n + 1) xs)) (one_more seq n (ground arith)))
  ]

  newer_each_all :
      (seq n : ℕ) (xs : List A) → seq ≤ n → newer_each seq (numbered n xs) ≡ numbered n xs
  unfolding newer_each numbered
  newer_each_all seq n [] h = refl
  newer_each_all seq n (x ∷ xs) h =
      let newer : ltb seq (n + 1) ≡ true = ground (arith, h) in
      rw newer (ap (◌∷◌ (n + 1, x)) (newer_each_all seq (n + 1) xs (omega (arith, h))))

  newer_each-numbered :
      (seq n : ℕ) (xs : List A) → newer_each seq (numbered n xs) ≡ drop (seq - n) (numbered n xs)
  unfolding newer_each numbered
  newer_each-numbered seq n [] = sym (drop-nil (seq - n))
  newer_each-numbered seq n (x ∷ xs) = elim (Bool-cases (ltb seq (n + 1))) [
    | inl e ↦
        rw (e, none_left seq n (ground arith))
          (ap (◌∷◌ (n + 1, x)) (newer_each_all seq (n + 1) xs (ground arith)))
    | inr e ↦ rw e (
        newer_each-numbered seq (n + 1) xs
        ∙ ap (λ k. drop k ((n + 1, x) ∷ numbered (n + 1) xs)) (one_more seq n (ground arith)))
  ]

-- the larger of two numbers
abbrev pub larger : ℕ → ℕ → ℕ
larger a b = if ltb a b then b else a

-- how many entries a reader that has seen `seq` of them does not get
abbrev pub passed : ℕ → ℕ → ℕ → ℕ
passed capacity appended seq = larger seq (appended - capacity)

module _ {ℓ} {A : Type ℓ} (n : ℤ) (default : ℕ) (z : Numbered A) (xs : List A) (seq : ℕ)
    (p : 0 < capacity_of n default) where
  abbrev ring : Ring A
  ring = append_all (new_ring n default z) xs

  -- how many entries are overwritten
  abbrev over : ℕ
  over = length xs - capacity_of n default

  ring-Holds : Holds ring (numbered 0 xs)
  ring-Holds =
      subst (λ t. Holds ring (numbered t xs)) (ap (λ r. r.total) (new_ring_lem n default z))
        (append_all-Holds xs (new_ring n default z) [] (new-Holds n default z p))

  ring-capacity : ring.capacity ≡ capacity_of n default
  ring-capacity =
      append_all-capacity xs (new_ring n default z)
      ∙ ap (λ r. r.capacity) (new_ring_lem n default z)

  lost : ring.total - ring.capacity ≡ over
  lost = omega (arith, ring-capacity, ring-Holds.count, length-numbered xs 0)

  shown : snapshot ring ≡ some (numbered (0 + over) (drop over xs))
  shown =
      snapshot-drop ring (numbered 0 xs) ring-Holds
      ∙ ap (λ k. some (drop k (numbered 0 xs))) lost
      ∙ ap some (drop-numbered over 0 xs)

  skipped :
      (k : ℕ)
      → drop (seq - (0 + k)) (numbered (0 + k) (drop k xs))
        ≡ numbered (larger seq k) (drop (larger seq k) xs)
  skipped k =
      drop-numbered (seq - (0 + k)) (0 + k) (drop k xs)
      ∙ ap (numbered (0 + k + (seq - (0 + k))))
          (drop-drop (seq - (0 + k)) k (larger seq k) xs (ground arith))
      ∙ ap (λ j. numbered j (drop (larger seq k) xs)) (ground arith)

  since_lem : since ring seq ≡ some (numbered (larger seq over) (drop (larger seq over) xs))
  unfolding since
  since_lem =
      rw shown (ap some (newer_suffix-numbered seq (0 + over) (drop over xs) ∙ skipped over))

  bot_since_lem : bot_since ring seq ≡ some (numbered (larger seq over) (drop (larger seq over) xs))
  unfolding bot_since
  bot_since_lem =
      rw shown (ap some (newer_each-numbered seq (0 + over) (drop over xs) ∙ skipped over))

-- Whatever is appended to a new ring of positive capacity, a reader that has seen everything up to
-- a number gets, with their numbers and in order, all entries appended after it, less those that
-- no longer fit into the capacity. No index is out of range, and the rings of the log and of a bot
-- agree.
pub since-append_all {ℓ} :
    {A : Type ℓ} (n : ℤ) (default : ℕ) (z : Numbered A) (xs : List A) (seq : ℕ)
    → 0 < capacity_of n default
    → let ring = append_all (new_ring n default z) xs in
      let m = passed (capacity_of n default) (length xs) seq in
      (since ring seq ≡ some (numbered m (drop m xs)))
      × (bot_since ring seq ≡ some (numbered m (drop m xs)))
since-append_all n default z xs seq p =
    (since_lem n default z xs seq p, bot_since_lem n default z xs seq p)
