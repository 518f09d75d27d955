-- ===== src/State/Whowas/Answers.antt =====
-- `Lookup` answers from the newest entries, whatever was recorded before.
use mathlib.Core.Path.{subst}
use ircat.Base.{
  ℕ, zero, suc, ◌+◌, ◌-◌, ◌≤◌, ◌<◌, ◌≡◌, refl, sym, ap, ◌∙◌, ◌≢◌, inl, inr, true, false, not, some,
  List, [], ◌∷◌, ◌++◌, append-nil, append_assoc, arith, ◌==◌, if◌then◌else◌, Bool-cases, length,
  get_elem?, take, length-append, filterb, Bytes, bytes_eq, bytes_has_eq,
}
use ircat.Base.Int.{ℤ, pos, negsuc}
use ircat.State.Casemap.{CaseMapping, fold}
use ircat.State.Whowas.{
  WhowasEntry, Whowas, capacity_or_default, new_whowas, no_nick, record_entry, index, enough, scan,
  lookup,
}
use ircat.State.Whowas.History.{
  IsValid, Represents, new_whowas-IsValid, record_entry-IsValid, filling_step, full_step,
}

-- the entries for a key
abbrev pub matching : CaseMapping → Bytes → List WhowasEntry → List WhowasEntry
matching m key = filterb (λ e. bytes_eq (fold m e.nick) key)

-- the first `max` of a list, or all where `max` is not positive
abbrev pub limited {ℓ} : {A : Type ℓ} → ℤ → List A → List A
limited (negsuc _) l = l
limited (pos n) l = if n == 0 then l else take n l

module _ {ℓ} {A : Type ℓ} where
  take_cons : (n : ℕ) (a : A) (l : List A) → 0 < n → take n (a ∷ l) ≡ a ∷ take (n - 1) l
  take_cons zero a l h = elim h [ ]
  take_cons (suc n) a l h = ap (λ k. a ∷ take k l) (omega arith)

  take_nil : (n : ℕ) → take {A = A} n [] ≡ []
  take_nil zero = refl
  take_nil (suc n) = refl

  take_none : (n : ℕ) (l : List A) → n ≡ 0 → take n l ≡ []
  take_none n l h = rw h

  take-take_le : (n k : ℕ) (l : List A) → n ≤ k → take n (take k l) ≡ take n l
  take-take_le zero k l h = refl
  take-take_le (suc n) zero l h = absurd (omega arith)
  take-take_le (suc n) (suc k) [] h = refl
  take-take_le (suc n) (suc k) (a ∷ l) h = ap (◌∷◌ a) (take-take_le n k l (omega arith))

  take-cons-take : (c : ℕ) (a : A) (l : List A) → 0 < c → take c (a ∷ take c l) ≡ take c (a ∷ l)
  take-cons-take zero a l h = elim h [ ]
  take-cons-take (suc n) a l h = ap (◌∷◌ a) (take-take_le n (suc n) l (omega arith))

step_down : (n k k' : ℕ) → k' ≡ k + 1 → n - k' ≡ n - k - 1
step_down n k k' h = omega arith

next_index : (i j : ℕ) → i + 1 + j ≡ i + suc j
next_index i j = omega arith

module _ (m : CaseMapping) (key : Bytes) where
  -- the loop of `Lookup` over the entries themselves
  collect : ℤ → List WhowasEntry → List WhowasEntry → List WhowasEntry
  collect max out [] = out
  collect max out (e ∷ h) =
      let out' = out ++ e ∷ [] in
      let skipped = collect max out h in
      let taken = collect max out' h in
      if not (bytes_eq (fold m e.nick) key)
      then skipped
      else if enough max (length out')
      then out'
      else taken

  collect_unlimited :
      (max : ℤ) (out h : List WhowasEntry)
      → ((n : ℕ) → enough max n ≡ false)
      → collect max out h ≡ out ++ matching m key h
  unfolding collect filterb
  collect_unlimited max out [] no_limit = sym (append-nil out)
  collect_unlimited max out (e ∷ h) no_limit = ground (
    arith,
    no_limit (length (out ++ e ∷ [])),
    collect_unlimited max out h no_limit,
    collect_unlimited max (out ++ e ∷ []) h no_limit,
    append_assoc out (e ∷ []) (matching m key h),
  )

  collect_limited :
      (n : ℕ) (out h : List WhowasEntry)
      → length out < n
      → collect (pos n) out h ≡ out ++ take (n - length out) (matching m key h)
  unfolding collect filterb
  collect_limited n out [] lt = rw take_nil (sym (append-nil out))
  collect_limited n out (e ∷ h) lt =
      let rest = matching m key h in
      ground (
        arith,
        length-append out (e ∷ []),
        collect_limited n out h lt,
        collect_limited n (out ++ e ∷ []) h,
        take_cons (n - length out) e rest,
        take_none (n - length out - 1) rest,
        ap (λ k. take k rest)
            (step_down n (length out) (length (out ++ e ∷ [])) (length-append out (e ∷ []))),
        append_assoc out (e ∷ []) (take (n - length out - 1) rest),
      )

scan-collect :
    (w : Whowas) (key : Bytes) (max : ℤ) (i : ℕ) (out h : List WhowasEntry)
    → ((j : ℕ) → j < length h → get_elem? w.entries (index w (i + j)) ≡ get_elem? h j)
    → scan w key max (length h) i out ≡ some (collect w.mapping key max out h)
unfolding scan collect
scan-collect w key max i out [] each = refl
scan-collect w key max i out (e ∷ h) each =
    let at_i : get_elem? w.entries (index w i) ≡ some e =
      ap (λ k. get_elem? w.entries (index w k)) (omega arith) ∙ each 0 (omega arith) in
    let rest = λ (j : ℕ) (lt : j < length h).
      ap (λ k. get_elem? w.entries (index w k)) (next_index i j) ∙ each (suc j) (omega arith) in
    ground (
      arith,
      at_i,
      scan-collect w key max (i + 1) out h rest,
      scan-collect w key max (i + 1) (out ++ e ∷ []) h rest,
    )

enough_limited :
    (m : CaseMapping) (key : Bytes) (max : ℤ) (h : List WhowasEntry)
    → collect m key max [] h ≡ limited max (matching m key h)
enough_limited m key (negsuc n) h = collect_unlimited m key (negsuc n) [] h (λ _. refl)
enough_limited m key (pos n) h = elim (Bool-cases (n == 0)) [
  | inl e ↦ rw e (collect_unlimited m key (pos n) [] h (λ k. ground arith))
  | inr e ↦ rw e (
      collect_limited m key n [] h (ground arith)
      ∙ ap (λ k. take k (matching m key h)) (omega arith))
]

-- A lookup of a nick that is not empty reads no index out of range and returns the entries of that
-- nick, the newest first, up to the limit.
pub lookup-Represents :
    (w : Whowas) (h : List WhowasEntry) (nick : Bytes) (max : ℤ)
    → Represents w h
    → nick ≢ []
    → lookup w nick max ≡ some (limited max (matching w.mapping (fold w.mapping nick) h))
unfolding lookup
lookup-Represents w h [] max r ne = absurd (ne refl)
lookup-Represents w h (c ∷ nick) max r ne =
    let key = fold w.mapping (c ∷ nick) in
    ap (λ k. scan w key max k 0 []) (sym r.size)
    ∙ scan-collect w key max 0 [] h
        (λ j lt. ap (λ k. get_elem? w.entries (index w k)) (omega arith) ∙ r.each j lt)
    ∙ ap some (enough_limited w.mapping key max h)

-- A recorded entry comes first, and the oldest goes when the buffer is full.
pub record_entry-Represents :
    (w : Whowas) (e : WhowasEntry) (h : List WhowasEntry)
    → IsValid w
    → no_nick e ≡ false
    → Represents w (take w.cap h)
    → Represents (record_entry w e) (take w.cap (e ∷ h))
record_entry-Represents w e h v ne r =
    let cut : take w.cap (e ∷ take w.cap h) ≡ take w.cap (e ∷ h) =
      take-cons-take w.cap e h v.cap_pos in
    elim (Bool-cases w.full) [
      | inl full ↦ subst (Represents (record_entry w e)) cut (full_step w e _ v r full ne)
      | inr filling ↦ subst (Represents (record_entry w e)) cut (filling_step w e _ v r filling ne)
    ]

unfoldable pub record_all : Whowas → List WhowasEntry → Whowas
record_all w [] = w
record_all w (e ∷ es) = record_all (record_entry w e) es

-- The entries with a nick, the newest first, in front of `h`.
abbrev pub newest_first : List WhowasEntry → List WhowasEntry → List WhowasEntry
newest_first h [] = h
newest_first h (e ∷ es) = newest_first (if no_nick e then h else e ∷ h) es

record_fields :
    (w : Whowas) (e : WhowasEntry)
    → ((record_entry w e).cap ≡ w.cap) × ((record_entry w e).mapping ≡ w.mapping)
unfolding record_entry
record_fields w e = ground arith

record_entry_ignored : (w : Whowas) (e : WhowasEntry) → no_nick e ≡ true → record_entry w e ≡ w
unfolding record_entry
record_entry_ignored w e h = rw h

record_all-lookup :
    (es : List WhowasEntry) (w : Whowas) (h : List WhowasEntry) (nick : Bytes) (max : ℤ)
    → IsValid w
    → Represents w (take w.cap h)
    → nick ≢ []
    → lookup (record_all w es) nick max
      ≡ some
          (limited max (matching w.mapping (fold w.mapping nick) (take w.cap (newest_first h es))))
unfolding record_all
record_all-lookup [] w h nick max v r ne = lookup-Represents w (take w.cap h) nick max r ne
record_all-lookup (e ∷ es) w h nick max v r ne = elim (Bool-cases (no_nick e)) [
  | inl x ↦ rw (x, record_entry_ignored w e x) (record_all-lookup es w h nick max v r ne)
  | inr x ↦
      let (same_cap, same_mapping) = record_fields w e in
      let next = record_entry w e in
      let r' : Represents next (take next.cap (e ∷ h)) =
        subst (λ c. Represents next (take c (e ∷ h))) (sym same_cap)
          (record_entry-Represents w e h v x r) in
      let answer = λ (m : CaseMapping) (c : ℕ).
        some (limited max (matching m (fold m nick) (take c (newest_first (e ∷ h) es)))) in
      rw x (
        record_all-lookup es next (e ∷ h) nick max (record_entry-IsValid w e v) r' ne
        ∙ ap (answer next.mapping) same_cap
        ∙ ap (λ m. answer m w.cap) same_mapping)
]

new_whowas-Represents :
    (capacity : ℤ) (m : CaseMapping) (n : ℕ) → Represents (new_whowas capacity m) (take n [])
unfolding new_whowas
new_whowas-Represents capacity m n =
    subst (Represents (new_whowas capacity m)) (sym (take_nil n))
      (record { size = refl; each = λ i lt. elim lt [ ] })

-- Whatever is recorded into a new buffer, a lookup of a nick that is not empty reads no index out
-- of range and returns, newest first and up to the limit, those of the last `cap` recorded entries
-- whose nick folds to the same key; entries with no nick were never recorded.
pub lookup-record_all :
    (capacity : ℤ) (m : CaseMapping) (es : List WhowasEntry) (nick : Bytes) (max : ℤ)
    → nick ≢ []
    → lookup (record_all (new_whowas capacity m) es) nick max
      ≡ some (
          limited max
            (matching m (fold m nick) (take (capacity_or_default capacity) (newest_first [] es))))
unfolding new_whowas
lookup-record_all capacity m es nick max ne =
    record_all-lookup es (new_whowas capacity m) [] nick max (new_whowas-IsValid capacity m)
      (new_whowas-Represents capacity m _) ne
