-- ===== src/Protocol/Tags/Pieces.antt =====
-- Cutting and splitting a text at a byte that a piece of it avoids.
use ircat.Base.{
  ℕ, ◌≡◌, refl, ap, Bool, true, false, none, some, [], ◌∷◌, ◌++◌, arith, ◌==◌, All, any, Bytes,
}
use ircat.Protocol.Text.{cut, split}

abbrev pub Avoids : ℕ → Bytes → Type 0
Avoids c = All (λ x. (x == c) ≡ false)

pub Avoids-append : (c : ℕ) (a b : Bytes) → Avoids c a → Avoids c b → Avoids c (a ++ b)
Avoids-append c [] b ha hb = hb
Avoids-append c (x ∷ a) b ha hb = (ha.0, Avoids-append c a b ha.1 hb)

pub Avoids-any : (c : ℕ) (p : ℕ → Bool) (s : Bytes) → p c ≡ true → any p s ≡ false → Avoids c s
unfolding any
Avoids-any c p [] hit h = tt
Avoids-any c p (x ∷ s) hit h = (ground (arith, ap p), Avoids-any c p s hit (ground arith))

pub cut_at : (c : ℕ) (a rest : Bytes) → Avoids c a → cut c (a ++ (c ∷ rest)) ≡ some (a, rest)
unfolding cut
cut_at c [] rest h = ground arith
cut_at c (x ∷ a) rest h = rw (h.0, cut_at c a rest h.1)

pub cut-none : (c : ℕ) (a : Bytes) → Avoids c a → cut c a ≡ none
unfolding cut
cut-none c [] h = refl
cut-none c (x ∷ a) h = rw (h.0, cut-none c a h.1)

pub split_at : (c : ℕ) (a rest : Bytes) → Avoids c a → split c (a ++ (c ∷ rest)) ≡ a ∷ split c rest
unfolding split
split_at c [] rest h = ground arith
split_at c (x ∷ a) rest h = rw (h.0, split_at c a rest h.1)

pub split_none : (c : ℕ) (a : Bytes) → Avoids c a → split c a ≡ a ∷ []
unfolding split
split_none c [] h = refl
split_none c (x ∷ a) h = rw (h.0, split_none c a h.1)
