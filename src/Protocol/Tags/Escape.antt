-- ===== src/Protocol/Tags/Escape.antt =====
-- Escaped tag values: what they avoid, and that unescaping gives the value back.
use ircat.Base.{
  ℕ, ◌≡◌, refl, sym, ap, ◌∙◌, inl, inr, Bool, false, ◌||◌, [], ◌∷◌, ◌++◌, arith, ◌==◌, Bool-cases,
  any, Bytes,
}
use ircat.Protocol.Tags.{
  unescape_byte, unescape_loop, has_backslash, unescape_tag_value, is_special, escape_byte,
  escape_loop, escape_tag_value,
}

-- The fast paths agree with the loops.
escape_fast : (s : Bytes) → any is_special s ≡ false → escape_loop s ≡ s
unfolding any is_special escape_loop escape_byte
escape_fast [] h = refl
escape_fast (c ∷ s) h = ground (arith, escape_fast s)

escape_tag_value-eq_loop : (s : Bytes) → escape_tag_value s ≡ escape_loop s
unfolding escape_tag_value
escape_tag_value-eq_loop s = elim (Bool-cases (any is_special s)) [
  | inl e ↦ rw e
  | inr e ↦ rw e (sym (escape_fast s e))
]

unescape-plain :
    (c : ℕ) (s : Bytes) → (c == b'\\') ≡ false → unescape_loop (c ∷ s) ≡ c ∷ unescape_loop s
unfolding unescape_loop
unescape-plain c [] h = rw h
unescape-plain c (d ∷ s) h = rw h

unescape_fast : (s : Bytes) → has_backslash s ≡ false → unescape_loop s ≡ s
unfolding any
unescape_fast [] h = unfold unescape_loop in refl
unescape_fast (c ∷ s) h = ground (arith, unescape-plain c s, unescape_fast s)

unescape_tag_value-eq_loop : (s : Bytes) → unescape_tag_value s ≡ unescape_loop s
unfolding unescape_tag_value
unescape_tag_value-eq_loop s = elim (Bool-cases (has_backslash s)) [
  | inl e ↦ rw e
  | inr e ↦ rw e (sym (unescape_fast s e))
]

unescape-escape_byte :
    (c : ℕ) (s : Bytes) → unescape_loop (escape_byte c ++ s) ≡ c ∷ unescape_loop s
unfolding escape_byte unescape_loop unescape_byte
unescape-escape_byte c s = ground (arith, unescape-plain c s)

unescape_loop-escape_loop : (s : Bytes) → unescape_loop (escape_loop s) ≡ s
unfolding escape_loop
unescape_loop-escape_loop [] = unfold unescape_loop in refl
unescape_loop-escape_loop (c ∷ s) =
    unescape-escape_byte c (escape_loop s) ∙ ap (◌∷◌ c) (unescape_loop-escape_loop s)

-- Unescaping an escaped tag value gives the value, whatever bytes it holds.
pub unescape-escape : (s : Bytes) → unescape_tag_value (escape_tag_value s) ≡ s
unescape-escape s =
    ap unescape_tag_value (escape_tag_value-eq_loop s)
    ∙ unescape_tag_value-eq_loop (escape_loop s)
    ∙ unescape_loop-escape_loop s

-- A byte that would end a tag, the tag part or the line.
abbrev pub ends_tag : ℕ → Bool
ends_tag c = c == b';' || c == b' ' || c == b'\r' || c == b'\n'

any-escape_byte :
    (c : ℕ) (s : Bytes) → any ends_tag s ≡ false → any ends_tag (escape_byte c ++ s) ≡ false
unfolding any escape_byte
any-escape_byte c s h = ground arith

any-escape_loop : (s : Bytes) → any ends_tag (escape_loop s) ≡ false
unfolding escape_loop
any-escape_loop [] = unfold any in refl
any-escape_loop (c ∷ s) = any-escape_byte c (escape_loop s) (any-escape_loop s)

-- An escaped tag value holds none of the bytes that would end the value or the tags: semicolon,
-- space, CR and LF.
pub any-escape_tag_value : (s : Bytes) → any ends_tag (escape_tag_value s) ≡ false
any-escape_tag_value s = ap (any ends_tag) (escape_tag_value-eq_loop s) ∙ any-escape_loop s
