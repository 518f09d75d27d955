-- ===== src/State/Glob.antt =====
-- `globMatch` of internal/state/channel.go: hostmask patterns with `*` and `?`.
pub mod Spec
pub mod Sound
pub mod Complete
pub mod Evasion
use ircat.Base.{
  ℕ, zero, suc, ◌+◌, ◌*◌, Bool, true, false, ◌||◌, Option, none, some, [], ◌∷◌, ◌==◌, if◌then◌else◌,
  length, Bytes,
}

-- the loop behind the main one, and its final test
unfoldable pub only_stars : Bytes → Bool
only_stars [] = true
only_stars (c ∷ p) = if c == b'*' then only_stars p else false

-- What `pi` and `si` leave of the two strings. A saved star is what follows `starP` in the
-- pattern, with what follows `starS` in the text; none while `starP` is -1.
abbrev pub Star : Type 0
Star = Option (Bytes × Bytes)

abbrev pub Round : Type 0
Round = Bytes → Bytes → Star → Option Bool

-- `case starP >= 0` and `default`; with no byte left to take, the loop ends behind the text.
pub backtrack : Star → Round → Option Bool
backtrack none next = some false
backtrack (some (q, [])) next = some (only_stars q)
backtrack (some (q, y ∷ t)) next = next q t (some (q, t))

-- One call is one test of `si < len(s)`; `none` means that the fuel ran out.
pub scan : ℕ → Round
scan zero p s star = none
scan (suc f) p [] star = some (only_stars p)
scan (suc f) [] (x ∷ s) star = backtrack star (scan f)
scan (suc f) (c ∷ p) (x ∷ s) star =
    let onward = scan f p s star in
    let starred = scan f p (x ∷ s) (some (p, x ∷ s)) in
    if c == x || c == b'?' then onward else if c == b'*' then starred else backtrack star (scan f)

pub fuel : Bytes → Bytes → ℕ
fuel p s = (length s + 1) * (length p + 1)

abbrev pub answer : Option Bool → Bool
answer none = false
answer (some b) = b

unfoldable pub glob_match : Bytes → Bytes → Bool
unfolding scan backtrack only_stars fuel
glob_match p s = answer (scan (fuel p s) p s none)

-- `HasGlobWildcard`
unfoldable pub has_glob_wildcard : Bytes → Bool
has_glob_wildcard [] = false
has_glob_wildcard (c ∷ s) = if c == b'*' || c == b'?' then true else has_glob_wildcard s
