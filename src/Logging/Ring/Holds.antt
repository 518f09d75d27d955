-- ===== src/Logging/Ring/Holds.antt =====
-- A ring holds the newest of the entries appended.
use native.Mathlib.Nat.{mod-lt, add-mod_right, mod-eq_of_lt, mod-add-mod}
use ircat.Base.{
  ℕ, zero, suc, ◌+◌, ◌-◌, ◌%◌, ◌≤◌, ◌<◌, ◌≡◌, refl, sym, ap, ◌∙◌, inl, inr, false, some, List, [],
  ◌∷◌, ◌++◌, append-nil, append_assoc, arith, leb, ◌==◌, if◌then◌else◌, ==_iff, Bool-cases, length,
  get_elem?, set, length-append,
}
use ircat.Base.Indexing.{length-set, get_elem?-set, get_elem?-append_left, get_elem?-concat, turn}
use ircat.Base.Int.{ℤ, pos, negsuc}
use ircat.Logging.Ring.{
  Numbered, Ring, new_ring, append, len, start, read_from, snapshot, replicate,
}

-- An index a few steps on, fewer than the capacity, is another one.
mod_apart : (j d c : ℕ) → 0 < d → d < c → ((j + d) % c == j % c) ≡ false
mod_apart j d c p lt =
    let low : j % c < c = mod-lt j (omega (arith, p, lt)) in
    rw (← mod-add-mod j c d) (ground (arith, low, turn (j % c + d) c))

abbrev pub capacity_of : ℤ → ℕ → ℕ
capacity_of (negsuc _) default = default
capacity_of (pos n) default = if leb n 0 then default else n

abbrev pub drop {ℓ} : {A : Type ℓ} → ℕ → List A → List A
drop zero l = l
drop (suc n) [] = []
drop (suc n) (a ∷ l) = drop n l

module _ {ℓ} {A : Type ℓ} where
  -- every entry appended, with its number, the oldest first
  unfoldable pub numbered : ℕ → List A → List (Numbered A)
  numbered n [] = []
  numbered n (a ∷ l) = (n + 1, a) ∷ numbered (n + 1) l

  unfoldable pub append_all : Ring A → List A → Ring A
  append_all r [] = r
  append_all r (a ∷ l) = append_all (append r a) l

  -- The ring holds the newest entries of a list, each at its number modulo the capacity.
  pub record Holds (r : Ring A) (l : List (Numbered A)) : Type ℓ where
    pub positive : 0 < r.capacity
    pub size : length r.entries ≡ r.capacity
    pub count : length l ≡ r.total
    pub place : r.next ≡ r.total % r.capacity
    pub each :
        (j : ℕ)
        → j < r.total
        → r.total ≤ j + r.capacity
        → get_elem? r.entries (j % r.capacity) ≡ get_elem? l j

  module _ (r : Ring A) (l : List (Numbered A)) (a : A) (v : Holds r l) where
    abbrev e : Numbered A
    e = (r.total + 1, a)

    next_in : r.next < length r.entries
    next_in = rw (v.place, v.size) (mod-lt r.total v.positive)

    newest :
        get_elem? (set r.entries r.next e) (r.total % r.capacity) ≡ get_elem? (l ++ e ∷ []) r.total
    newest =
        get_elem?-set r.entries r.next (r.total % r.capacity) e next_in
        ∙ ground (arith, v.place)
        ∙ sym (get_elem?-concat l e)
        ∙ ap (get_elem? (l ++ e ∷ [])) v.count

    elsewhere :
        (j : ℕ) → j < r.total → r.total < j + r.capacity → (r.next == j % r.capacity) ≡ false
    elsewhere j lt near = rw v.place (
        ap (λ t. t % r.capacity == j % r.capacity) (omega (arith, lt))
        ∙ mod_apart j (r.total - j) r.capacity (omega (arith, lt)) (omega (arith, lt, near)))

    older :
        (j : ℕ)
        → j < r.total
        → r.total < j + r.capacity
        → get_elem? (set r.entries r.next e) (j % r.capacity) ≡ get_elem? (l ++ e ∷ []) j
    older j lt near =
        get_elem?-set r.entries r.next (j % r.capacity) e next_in
        ∙ rw (elsewhere j lt near) (v.each j lt (omega (arith, near)))
        ∙ sym (get_elem?-append_left l (e ∷ []) j (omega (arith, lt, v.count)))

    append-Holds : Holds (append r a) (l ++ e ∷ [])
    unfolding append
    append-Holds = record {
      positive = v.positive;
      size = length-set r.entries r.next e ∙ v.size;
      count = ground (arith, length-append l (e ∷ []), v.count);
      place = rw v.place (mod-add-mod r.total r.capacity 1);
      each = λ j lt near. elim (Bool-cases (j == r.total)) [
        | inl same ↦ rw ((==_iff j r.total).0 same) newest
        | inr ne ↦ older j (ground arith) (ground arith)
      ];
    }

  pub append_all-Holds :
      (xs : List A) (r : Ring A) (l : List (Numbered A))
      → Holds r l
      → Holds (append_all r xs) (l ++ numbered r.total xs)
  unfolding append_all numbered append
  append_all-Holds [] r l v = rw (append-nil l) v
  append_all-Holds (a ∷ xs) r l v =
      rw (← append_assoc l ((r.total + 1, a) ∷ []) (numbered (r.total + 1) xs))
        (append_all-Holds xs (append r a) (l ++ (r.total + 1, a) ∷ []) (append-Holds r l a v))

  length-replicate : (n : ℕ) (z : Numbered A) → length (replicate n z) ≡ n
  unfolding replicate
  length-replicate zero z = refl
  length-replicate (suc n) z = ap suc (length-replicate n z)

  pub new_ring_lem :
      (n : ℤ) (default : ℕ) (z : Numbered A)
      → new_ring n default z ≡ record {
        capacity = capacity_of n default;
        entries = replicate (capacity_of n default) z;
        next = 0;
        total = 0;
      }
  unfolding new_ring
  new_ring_lem (negsuc n) default z = refl
  new_ring_lem (pos n) default z = refl

  pub new-Holds :
      (n : ℤ) (default : ℕ) (z : Numbered A)
      → 0 < capacity_of n default
      → Holds (new_ring n default z) []
  new-Holds n default z p = rw (new_ring_lem n default z) (record {
    positive = p;
    size = length-replicate (capacity_of n default) z;
    count = refl;
    place = sym (mod-eq_of_lt p);
    each = λ j lt. absurd (omega (arith, lt));
  })

  -- the list from an index on
  drop-get :
      (l : List (Numbered A)) (k : ℕ) (x : Numbered A)
      → get_elem? l k ≡ some x
      → drop k l ≡ x ∷ drop (suc k) l
  drop-get [] k x h = cc
  drop-get (y ∷ l) zero x h = ap (λ z. z ∷ l) cc
  drop-get (y ∷ l) (suc k) x h = drop-get l k x h

  drop_all : (l : List (Numbered A)) (k : ℕ) → k ≡ length l → drop k l ≡ []
  drop_all l k h = rw h (drop_length l)
    where
      drop_length : (l : List (Numbered A)) → drop (length l) l ≡ []
      drop_length [] = refl
      drop_length (x ∷ l) = drop_length l

  get_elem?-some :
      (l : List (Numbered A)) (k : ℕ) → k < length l → (x : Numbered A) × (get_elem? l k ≡ some x)
  get_elem?-some [] k h = absurd (omega (arith, h))
  get_elem?-some (x ∷ l) zero h = (x, refl)
  get_elem?-some (x ∷ l) (suc k) h = get_elem?-some l k (omega (arith, h))

  module _ (r : Ring A) (l : List (Numbered A)) (v : Holds r l) where
    -- how many entries are gone
    abbrev pub gone : ℕ
    gone = r.total - r.capacity

    start_index : (i : ℕ) → (start r + i) % r.capacity ≡ (gone + i) % r.capacity
    start_index i = elim (Bool-cases (leb r.capacity r.total)) [
      | inl e ↦
          rw (e, v.place)
            (mod-add-mod r.total r.capacity i
              ∙ ap (λ t. t % r.capacity) (ground arith)
              ∙ add-mod_right (gone + i) r.capacity)
      | inr e ↦ rw e (ap (λ t. t % r.capacity) (ground arith))
    ]

    read_from-drop :
        (count i : ℕ) → gone + i + count ≡ r.total → read_from r i count ≡ some (drop (gone + i) l)
    unfolding read_from
    read_from-drop zero i h = ap some (sym (drop_all l (gone + i) (omega (arith, h, v.count))))
    read_from-drop (suc count) i h =
        let (x, at) = get_elem?-some l (gone + i) (omega (arith, h, v.count)) in
        let here : get_elem? r.entries ((start r + i) % r.capacity) ≡ some x =
          ap (get_elem? r.entries) (start_index i)
          ∙ v.each (gone + i) (omega (arith, h)) (omega (arith, h))
          ∙ at in
        let later : read_from r (i + 1) count ≡ some (drop (suc (gone + i)) l) =
          read_from-drop count (i + 1) (omega (arith, h))
          ∙ ap (λ k. some (drop k l)) {y = suc (gone + i)} (omega arith) in
        rw (here, later) (ap some (sym (drop-get l (gone + i) x at)))

    pub snapshot-drop : snapshot r ≡ some (drop gone l)
    unfolding snapshot len
    snapshot-drop =
        read_from-drop (len r) 0 (ground arith) ∙ ap (λ k. some (drop k l)) (omega arith)

  pub append_all-capacity : (xs : List A) (r : Ring A) → (append_all r xs).capacity ≡ r.capacity
  unfolding append_all append
  append_all-capacity [] r = refl
  append_all-capacity (x ∷ xs) r = append_all-capacity xs (append r x)

  pub length-numbered : (xs : List A) (n : ℕ) → length (numbered n xs) ≡ length xs
  unfolding numbered
  length-numbered [] n = refl
  length-numbered (x ∷ xs) n = ap suc (length-numbered xs (n + 1))
