-- ===== src/Base/GoMap/Copy.antt =====
-- Entries put into a map one by one, as the loops that copy or fill a Go map do.
use mathlib.Core.Path.{◌≡◌, refl, sym, ap, ◌∙◌}
use mathlib.Core.Option.{none}
use mathlib.Core.List.{[], ◌∷◌, ◌++◌, append_assoc, append-nil}
use native.Mathlib.Omega.{arith}
use ircat.Base.Tests.{Eq}
use ircat.Base.Lists.{All}
use ircat.Base.GoMap.{GoMap, get, put, Distinct, get-put}

module _ {ℓ} {K V : Type ℓ} ⦃e : Eq K⦄ where
  abbrev pub put_all : GoMap K V → GoMap K V → GoMap K V
  put_all out [] = out
  put_all out ((k, v) ∷ t) = put_all (put k v out) t

  -- Keys that are not in a map yet are put at its end.
  put-new : (k : K) (v : V) (m : GoMap K V) → get k m ≡ none → put k v m ≡ m ++ (k, v) ∷ []
  unfolding put get
  put-new k v [] h = refl
  put-new k v ((j, w) ∷ m) h = ground (arith, put-new k v m)

  abbrev AllNew : GoMap K V → GoMap K V → Type ℓ
  AllNew out = All (λ x. get x.0 out ≡ none)

  AllNew-put :
      (k : K) (v : V) (out t : GoMap K V) → get k t ≡ none → AllNew out t → AllNew (put k v out) t
  unfolding get
  AllNew-put k v out [] h n = tt
  AllNew-put k v out ((j, w) ∷ t) h n = (
    ground (arith, get-put k j v out, e.beq_iff k j, e.beq_iff j k),
    AllNew-put k v out t (ground arith) n.1,
  )

  put_all-new : (t out : GoMap K V) → Distinct t → AllNew out t → put_all out t ≡ out ++ t
  put_all-new [] out d n = sym (append-nil out)
  put_all-new ((k, v) ∷ t) out d n =
      put_all-new t (put k v out) d.1 (AllNew-put k v out t d.0 n.1)
      ∙ ap (λ m. m ++ t) (put-new k v out n.0)
      ∙ append_assoc out ((k, v) ∷ []) t

  AllNew-nil : (t : GoMap K V) → AllNew [] t
  unfolding get
  AllNew-nil [] = tt
  AllNew-nil (x ∷ t) = (refl, AllNew-nil t)

  -- A copy of a map into an empty one.
  pub put_all-nil : (t : GoMap K V) → Distinct t → put_all [] t ≡ t
  put_all-nil t d = put_all-new t [] d (AllNew-nil t)
