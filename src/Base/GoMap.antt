-- ===== src/Base/GoMap.antt =====
-- A Go map as an association list. `m[k] = v` is `put`, `delete(m, k)` is `erase`, and a read
-- with its second result is `get`. What Go leaves open, the order of a `range`, is the list's.
pub mod Copy
use mathlib.Core.Logic.{◌⊎◌, inl, inr}
use ircat.Base.Tests.{Bool-cases, Eq, if◌then◌else◌, is_some}
use ircat.Base.Lists.{length}
use Prim.Native.Nat.{suc}
use mathlib.Core.Path.{◌≡◌, refl, ap}
use mathlib.Core.Bool.{Bool}
use mathlib.Core.Option.{Option, none, some}
use mathlib.Core.List.{List, [], ◌∷◌}
use native.Mathlib.Omega.{arith}

abbrev pub GoMap {ℓ} : Type ℓ → Type ℓ → Type ℓ
GoMap K V = List (K × V)

module _ {ℓ} {K V : Type ℓ} ⦃e : Eq K⦄ where
  unfoldable pub get : K → GoMap K V → Option V
  get k [] = none
  get k ((j, v) ∷ m) = if e.beq j k then some v else get k m

  unfoldable pub put : K → V → GoMap K V → GoMap K V
  put k v [] = (k, v) ∷ []
  put k v ((j, w) ∷ m) = if e.beq j k then (k, v) ∷ m else (j, w) ∷ put k v m

  unfoldable pub erase : K → GoMap K V → GoMap K V
  erase k [] = []
  erase k ((j, w) ∷ m) = let rest = erase k m in if e.beq j k then rest else (j, w) ∷ rest

  abbrev pub has : K → GoMap K V → Bool
  has k m = is_some (get k m)

  pub get-put :
      (k j : K) (v : V) (m : GoMap K V)
      → get j (put k v m) ≡ (if e.beq k j then some v else get j m)
  unfolding get put
  get-put k j v [] = refl
  get-put k j v ((i, w) ∷ m) =
      ground (arith, e.beq_iff k j, e.beq_iff i k, e.beq_iff i j, get-put k j v m)

  pub get-erase :
      (k j : K) (m : GoMap K V) → get j (erase k m) ≡ (if e.beq k j then none else get j m)
  unfolding get erase
  get-erase k j [] = ground arith
  get-erase k j ((i, w) ∷ m) =
      ground (arith, e.beq_iff k j, e.beq_iff i k, e.beq_iff i j, get-erase k j m)

-- What is read after a write is the new value, or was there before.
module _ {ℓ} {K V : Type ℓ} ⦃e : Eq K⦄ (k j : K) (m : GoMap K V) {x : V} where
  pub put_inv : (v : V) → get j (put k v m) ≡ some x → ((k ≡ j) × (v ≡ x)) ⊎ (get j m ≡ some x)
  put_inv v h = elim (Bool-cases (e.beq k j)) [
    | inl same ↦ inl ((e.beq_iff k j).0 same, ground (arith, get-put k j v m))
    | inr other ↦ inr (ground (arith, get-put k j v m))
  ]

  pub erase_inv : get j (erase k m) ≡ some x → get j m ≡ some x
  erase_inv h = ground (arith, get-erase k j m)

-- No key stands twice, as in every Go map.
module _ {ℓ} {K V : Type ℓ} ⦃e : Eq K⦄ where
  abbrev pub Distinct : GoMap K V → Type ℓ
  Distinct [] = Unit
  Distinct ((k, v) ∷ m) = (get k m ≡ none) × Distinct m

  pub put-Distinct : (k : K) (v : V) (m : GoMap K V) → Distinct m → Distinct (put k v m)
  unfolding put get
  put-Distinct k v [] d = (refl, tt)
  put-Distinct k v ((j, w) ∷ m) d =
      ground (arith, e.beq_iff j k, get-put k j v m, put-Distinct k v m d.1, e.beq_iff k j)

  pub erase-Distinct : (k : K) (m : GoMap K V) → Distinct m → Distinct (erase k m)
  unfolding erase get
  erase-Distinct k [] d = tt
  erase-Distinct k ((j, w) ∷ m) d =
      ground (arith, e.beq_iff j k, get-erase k j m, erase-Distinct k m d.1, e.beq_iff k j)

-- `for k := range m { m[k] = f(m[k]) }`
module _ {ℓ} {K V : Type ℓ} where
  unfoldable pub map_values : (V → V) → GoMap K V → GoMap K V
  map_values f [] = []
  map_values f ((k, v) ∷ m) = (k, f v) ∷ map_values f m

  pub length-map_values : (f : V → V) (m : GoMap K V) → length (map_values f m) ≡ length m
  unfolding map_values
  length-map_values f [] = refl
  length-map_values f ((k, v) ∷ m) = ap suc (length-map_values f m)
