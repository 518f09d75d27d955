-- ===== src/State/Whowas.antt =====
-- internal/state/whowas.go: the ring buffer of users that have left.
pub mod History
pub mod Answers
use ircat.Base.{
  ℕ, zero, suc, ◌+◌, ◌-◌, ◌%◌, Bool, true, false, not, ◌&&◌, Option, none, some, List, [], ◌∷◌,
  ◌++◌, ltb, leb, ◌==◌, if◌then◌else◌, length, get_elem?, set, Bytes, bytes_eq, bytes_has_eq,
}
use ircat.Base.Int.{ℤ, pos, negsuc}
use ircat.State.Casemap.{CaseMapping, fold}

pub record WhowasEntry : Type 0 where
  pub nick : Bytes
  pub user : Bytes
  pub host : Bytes
  pub realname : Bytes
  pub server : Bytes
  pub when : ℤ

pub record Whowas : Type 0 where
  pub mapping : CaseMapping
  pub cap : ℕ
  pub entries : List WhowasEntry
  pub head : ℕ
  pub full : Bool

-- a capacity as `NewWhowas` takes it
abbrev pub capacity_or_default : ℤ → ℕ
capacity_or_default (negsuc _) = 1024
capacity_or_default (pos n) = if n == 0 then 1024 else n

unfoldable pub new_whowas : ℤ → CaseMapping → Whowas
new_whowas capacity mapping = record {
  mapping = mapping;
  cap = capacity_or_default capacity;
  entries = [];
  head = 0;
  full = false;
}

abbrev pub no_nick : WhowasEntry → Bool
no_nick e = elim e.nick [ [] ↦ true | _ ∷ _ ↦ false ]

abbrev pub appended : Whowas → WhowasEntry → List WhowasEntry
appended w e = w.entries ++ e ∷ []

-- `Record`
unfoldable pub record_entry : Whowas → WhowasEntry → Whowas
record_entry w e =
    if no_nick e
    then w
    else if not w.full
    then (if length (appended w e) == w.cap
        then record w { entries = appended w e; full = true; head = 0 }
        else record w { entries = appended w e })
    else record w { entries = set w.entries w.head e; head = (w.head + 1) % w.cap }

-- `head - 1 - i + cap` is at least `head`, since `i < cap`.
unfoldable pub index : Whowas → ℕ → ℕ
index w i = if w.full then (w.head + w.cap - 1 - i) % w.cap else length w.entries - 1 - i

-- the loop test `max > 0 && len(out) >= max`
abbrev pub enough : ℤ → ℕ → Bool
enough (negsuc _) n = false
enough (pos m) n = ltb 0 m && leb m n

-- The loop of `Lookup`: `left` rounds are left, from `i` on; `none` is an index out of range.
pub scan : Whowas → Bytes → ℤ → ℕ → ℕ → List WhowasEntry → Option (List WhowasEntry)
scan w key max zero i out = some out
scan w key max (suc left) i out = elim (get_elem? w.entries (index w i)) [
  | none ↦ none
  | some e ↦
      let out' = out ++ e ∷ [] in
      let skipped = scan w key max left (i + 1) out in
      let taken = scan w key max left (i + 1) out' in
      if not (bytes_eq (fold w.mapping e.nick) key)
      then skipped
      else if enough max (length out')
      then some out'
      else taken
]

unfoldable pub lookup : Whowas → Bytes → ℤ → Option (List WhowasEntry)
unfolding scan index
lookup w [] max = some []
lookup w nick max = scan w (fold w.mapping nick) max (length w.entries) 0 []
