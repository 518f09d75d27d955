-- ===== src/Logging/Ring.antt =====
-- The ring of log entries: `RingBuffer` of internal/logging/ring.go, and `botLogRing` of
-- internal/bots/logring.go, which differ in the entry and in how a reader skips. An entry is its
-- sequence number and the rest of it, and `zero_entry` is Go's zero value. `none` stands for an
-- index out of range.
pub mod Holds
pub mod Tail
use ircat.Base.{
  ℕ, zero, suc, ◌+◌, ◌%◌, Option, none, some, List, [], ◌∷◌, ltb, leb, if◌then◌else◌, get_elem?,
  set,
}
use ircat.Base.Int.{ℤ, pos, negsuc}

abbrev pub Numbered {ℓ} : Type ℓ → Type ℓ
Numbered A = ℕ × A

pub record Ring {ℓ} (A : Type ℓ) : Type ℓ where
  pub capacity : ℕ
  pub entries : List (Numbered A)
  pub next : ℕ
  pub total : ℕ

module _ {ℓ} {A : Type ℓ} where
  -- `make([]Entry, n)`
  unfoldable pub replicate : ℕ → Numbered A → List (Numbered A)
  replicate zero a = []
  replicate (suc n) a = a ∷ replicate n a

  -- `default` is the capacity that replaces one that is not positive
  unfoldable pub new_ring : ℤ → ℕ → Numbered A → Ring A
  unfolding replicate
  new_ring (negsuc _) default zero_entry = record {
    capacity = default;
    entries = replicate default zero_entry;
    next = 0;
    total = 0;
  }
  new_ring (pos n) default zero_entry =
      let capacity = if leb n 0 then default else n in
      record { capacity = capacity; entries = replicate capacity zero_entry; next = 0; total = 0 }

  unfoldable pub append : Ring A → A → Ring A
  append r a = record r {
    total = r.total + 1;
    entries = set r.entries r.next (r.total + 1, a);
    next = (r.next + 1) % r.capacity;
  }

  -- `Len`, which is also the count of a snapshot
  unfoldable pub len : Ring A → ℕ
  len r = if ltb r.total r.capacity then r.total else r.capacity

  abbrev pub start : Ring A → ℕ
  start r = if leb r.capacity r.total then r.next else 0

  -- `count` entries from the `i`-th on
  abbrev pub onto : Option (Numbered A) → Option (List (Numbered A)) → Option (List (Numbered A))
  onto none l = none
  onto (some e) none = none
  onto (some e) (some l) = some (e ∷ l)

  unfoldable pub read_from : Ring A → ℕ → ℕ → Option (List (Numbered A))
  read_from r i zero = some []
  read_from r i (suc count) =
      onto (get_elem? r.entries ((start r + i) % r.capacity)) (read_from r (i + 1) count)

  unfoldable pub snapshot : Ring A → Option (List (Numbered A))
  unfolding read_from len
  snapshot r = read_from r 0 (len r)

  -- the scan of `Since` of the server's ring: from the first newer entry on
  unfoldable pub newer_suffix : ℕ → List (Numbered A) → List (Numbered A)
  newer_suffix seq [] = []
  newer_suffix seq ((n, a) ∷ l) = if ltb seq n then (n, a) ∷ l else newer_suffix seq l

  -- the scan of `since` of a bot's ring: each newer entry
  unfoldable pub newer_each : ℕ → List (Numbered A) → List (Numbered A)
  newer_each seq [] = []
  newer_each seq ((n, a) ∷ l) =
      let rest = newer_each seq l in if ltb seq n then (n, a) ∷ rest else rest

  abbrev pub after :
      (List (Numbered A) → List (Numbered A))
      → Option (List (Numbered A))
      → Option (List (Numbered A))
  after f none = none
  after f (some l) = some (f l)

  unfoldable pub since : Ring A → ℕ → Option (List (Numbered A))
  unfolding snapshot newer_suffix
  since r seq = after (newer_suffix seq) (snapshot r)

  unfoldable pub bot_since : Ring A → ℕ → Option (List (Numbered A))
  unfolding snapshot newer_each
  bot_since r seq = after (newer_each seq) (snapshot r)

abbrev pub default_ring_entries : ℕ
default_ring_entries = 10000

abbrev pub default_bot_log_capacity : ℕ
default_bot_log_capacity = 1000

-- `NewRingBuffer` and `newBotLogRing`
abbrev pub new_ring_buffer {ℓ} : {A : Type ℓ} → ℤ → Numbered A → Ring A
new_ring_buffer capacity zero_entry = new_ring capacity default_ring_entries zero_entry

abbrev pub new_bot_log_ring {ℓ} : {A : Type ℓ} → ℤ → Numbered A → Ring A
new_bot_log_ring capacity zero_entry = new_ring capacity default_bot_log_capacity zero_entry
