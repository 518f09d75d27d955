-- ===== src/State/Casemap/Folding.antt =====
-- Folded names are canonical: `Equal` and the map keys agree.
use ircat.Base.{
  ℕ, suc, ◌≡◌, refl, ap, ◌↔◌, inl, inr, true, [], ◌∷◌, arith, ◌==◌, ==_iff, Bool-cases, length,
  Bytes,
}
use ircat.State.Casemap.{CaseMapping, rfc1459, ascii, fold_byte, fold, equal_bytes, equal}

fold_byte_idem : (m : CaseMapping) (c : ℕ) → fold_byte m (fold_byte m c) ≡ fold_byte m c
unfolding fold_byte
fold_byte_idem rfc1459 c = ground arith
fold_byte_idem ascii c = ground arith

-- Folding a folded name changes nothing, under both mappings.
pub fold-fold : (m : CaseMapping) (s : Bytes) → fold m (fold m s) ≡ fold m s
unfolding fold
fold-fold m [] = refl
fold-fold m (c ∷ s) = cc (fold_byte_idem m c, fold-fold m s)

pub length-fold : (m : CaseMapping) (s : Bytes) → length (fold m s) ≡ length s
unfolding fold
length-fold m [] = refl
length-fold m (c ∷ s) = ap suc (length-fold m s)

pub fold-eq-nil : (m : CaseMapping) (s : Bytes) → fold m s ≡ [] → s ≡ []
unfolding fold
fold-eq-nil m [] h = refl
fold-eq-nil m (c ∷ s) h = cc

equal_bytes_iff :
    (m : CaseMapping) (a b : Bytes)
    → length a ≡ length b
    → (equal_bytes m a b ≡ true) ↔ (fold m a ≡ fold m b)
unfolding equal_bytes fold
equal_bytes_iff m [] [] h = ((λ _. refl), (λ _. refl))
equal_bytes_iff m [] (y ∷ b) h = absurd (omega arith)
equal_bytes_iff m (x ∷ a) [] h = absurd (omega arith)
equal_bytes_iff m (x ∷ a) (y ∷ b) h =
    let (there, back) = equal_bytes_iff m a b (omega arith) in
    ((λ e. ground (arith, there)), (λ e. ground (arith, back)))

-- `Equal` holds exactly when the two names have one key under `Fold`.
pub equal_iff : (m : CaseMapping) (a b : Bytes) → (equal m a b ≡ true) ↔ (fold m a ≡ fold m b)
unfolding equal
equal_iff m a b = elim (Bool-cases (length a == length b)) [
  | inl same ↦ rw same (equal_bytes_iff m a b ((==_iff _ _).0 same))
  | inr other ↦
      rw other ((λ e. cc), λ e. ground (arith, length-fold m a, length-fold m b, ap length e))
]

-- Folding by ascii first does not change the folding by rfc1459, so that names that ascii
-- identifies are identified by rfc1459 too.
pub rfc1459-coarser : (s : Bytes) → fold rfc1459 (fold ascii s) ≡ fold rfc1459 s
unfolding fold
rfc1459-coarser [] = refl
rfc1459-coarser (c ∷ s) = cc (byte c, rfc1459-coarser s)
  where
    byte : (c : ℕ) → fold_byte rfc1459 (fold_byte ascii c) ≡ fold_byte rfc1459 c
    byte c = ground arith
