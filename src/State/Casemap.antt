-- ===== src/State/Casemap.antt =====
-- internal/state/casemap.go: the folding of nicknames and channel names into lookup keys.
pub mod Folding
use ircat.Base.{
  ℕ, ◌+◌, ◌-◌, ◌%◌, Bool, true, false, not, ◌&&◌, [], ◌∷◌, leb, ◌==◌, if◌then◌else◌, length, Bytes,
}

pub data CaseMapping : Type 0 where
  rfc1459 ascii : CaseMapping

-- the switch at the end of `foldByte`
fold_punctuation : ℕ → ℕ
fold_punctuation c =
    if c == b'['
    then b'{'
    else if c == b']'
    then b'}'
    else if c == b'\\'
    then b'|'
    else if c == b'^'
    then b'~'
    else c

is_ascii : CaseMapping → Bool
is_ascii rfc1459 = false
is_ascii ascii = true

unfoldable pub fold_byte : CaseMapping → ℕ → ℕ
unfolding fold_punctuation is_ascii
fold_byte m c =
    if leb b'A' c && leb c b'Z'
    then (c + (b'a' - b'A')) % 256
    else if is_ascii m
    then c
    else fold_punctuation c

unfoldable pub fold : CaseMapping → Bytes → Bytes
unfolding fold_byte
fold m [] = []
fold m (c ∷ s) = fold_byte m c ∷ fold m s

-- the loop of `Equal`, on strings of one length
equal_bytes : CaseMapping → Bytes → Bytes → Bool
equal_bytes m (x ∷ a) (y ∷ b) =
    if not (fold_byte m x == fold_byte m y) then false else equal_bytes m a b
equal_bytes m _ _ = true

unfoldable pub equal : CaseMapping → Bytes → Bytes → Bool
unfolding equal_bytes fold_byte
equal m a b = if not (length a == length b) then false else equal_bytes m a b
