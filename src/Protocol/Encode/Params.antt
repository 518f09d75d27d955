-- ===== src/Protocol/Encode/Params.antt =====
-- The parser's loop reads back the parameters that the encoder wrote.
use mathlib.Core.Path.{subst}
use ircat.Base.{
  ℕ, zero, suc, ◌+◌, ◌≤◌, ◌≡◌, refl, sym, ◌≢◌, inl, inr, true, false, List, [], ◌∷◌, ◌++◌, arith,
  ◌==◌, length, any, Bytes,
}
use ircat.Protocol.Message.{Result-cases, ok}
use ircat.Protocol.Text.{trim_left}
use ircat.Protocol.Text.Commands.{trim_left_start}
use ircat.Protocol.Tags.Pieces.{Avoids, cut_at}
use ircat.Protocol.Parse.{take_params}
use ircat.Protocol.Encode.{no_space_crlf_nul, is_middle, write_params}

Avoids-space : (p : Bytes) → no_space_crlf_nul p ≡ true → Avoids b' ' p
unfolding no_space_crlf_nul any
Avoids-space [] h = tt
Avoids-space (x ∷ p) h = (ground arith, Avoids-space p (ground arith))

-- A middle parameter begins with no colon and holds no space.
middle_parts :
    (c : ℕ) (p : Bytes) → is_middle (c ∷ p) ≡ true → ((c == b':') ≡ false) × Avoids b' ' (c ∷ p)
unfolding is_middle
middle_parts c p h = (ground arith, Avoids-space (c ∷ p) (ground arith))

-- What was written of some parameters: a space, then what the parser's loop is given.
pub record ReadsBack (n : ℕ) (ps : List Bytes) (out : Bytes) : Type 0 where
  pub text : Bytes
  pub spaced : out ≡ b' ' ∷ text
  pub trimmed : trim_left text ≡ text
  pub taken : take_params n text ≡ ps

one-ReadsBack : (n : ℕ) (p : Bytes) → ReadsBack n (p ∷ []) (b' ' ∷ b':' ∷ p)
unfolding take_params
one-ReadsBack zero p = record {
  text = b':' ∷ p;
  spaced = refl;
  trimmed = trim_left_start b':' p refl;
  taken = refl;
}
one-ReadsBack (suc n) p = record {
  text = b':' ∷ p;
  spaced = refl;
  trimmed = trim_left_start b':' p refl;
  taken = refl;
}

more-ReadsBack :
    (n c : ℕ) (p : Bytes) (ps : List Bytes) (rest : Bytes)
    → is_middle (c ∷ p) ≡ true
    → ReadsBack n ps rest
    → ReadsBack (suc n) ((c ∷ p) ∷ ps) (b' ' ∷ ((c ∷ p) ++ rest))
unfolding take_params
more-ReadsBack n c p ps rest mid r =
    let (no_colon, no_space) = middle_parts c p mid in
    record {
      text = (c ∷ p) ++ rest;
      spaced = refl;
      trimmed = trim_left_start c (p ++ rest) no_space.0;
      taken = rw (r.spaced, no_colon, cut_at b' ' (c ∷ p) r.text no_space, r.trimmed, r.taken);
    }

-- One step of the encoder's loop that succeeds: the parameter is a middle one, and the later ones
-- were written.
write_more :
    (p q : Bytes) (ps : List Bytes) (out : Bytes)
    → write_params (p ∷ q ∷ ps) ≡ ok out
    → (rest : Bytes) × (is_middle p ≡ true)
      × (write_params (q ∷ ps) ≡ ok rest)
      × (out ≡ b' ' ∷ (p ++ rest))
unfolding write_params
write_more p q ps out h = elim (Result-cases (write_params (q ∷ ps))) [
  | inl (rest, e) ↦ (rest, ground arith, e, ground arith)
  | inr (x, e) ↦ absurd (ground arith)
]

write_last : (p out : Bytes) → write_params (p ∷ []) ≡ ok out → b' ' ∷ b':' ∷ p ≡ out
unfolding write_params
write_last p out h = ground arith

pub write_params-ReadsBack :
    (ps : List Bytes) (n : ℕ) (out : Bytes)
    → ps ≢ []
    → length ps ≤ n + 1
    → write_params ps ≡ ok out
    → ReadsBack n ps out
write_params-ReadsBack [] n out ne le h = absurd (ne refl)
write_params-ReadsBack (p ∷ []) n out ne le h =
    subst (ReadsBack n (p ∷ [])) (write_last p out h) (one-ReadsBack n p)
write_params-ReadsBack (p ∷ q ∷ ps) zero out ne le h = absurd (omega arith)
write_params-ReadsBack ([] ∷ q ∷ ps) (suc n) out ne le h =
    let (_, mid, _, _) = write_more [] q ps out h in absurd (unfold is_middle in ground arith)
write_params-ReadsBack ((c ∷ p) ∷ q ∷ ps) (suc n) out ne le h =
    let (rest, mid, later, e) = write_more (c ∷ p) q ps out h in
    subst (ReadsBack (suc n) ((c ∷ p) ∷ q ∷ ps)) (sym e) (
      more-ReadsBack n c p (q ∷ ps) rest mid
        (write_params-ReadsBack (q ∷ ps) n rest (ground arith) (omega arith) later))
