-- ===== src/State/Whowas/History.antt =====
-- The ring buffer refines a list of the newest entries.
use ircat.Base.{
  ℕ, zero, suc, ◌+◌, ◌-◌, ◌%◌, ◌<◌, ◌≡◌, sym, ap, ◌∙◌, true, false, List, [], ◌∷◌, arith, ◌==◌,
  length, get_elem?, set, take, length-append, bytes_has_eq,
}
use ircat.Base.Indexing.{
  mod_small, turn, get_elem?-append_left, get_elem?-concat, get_elem?-take, length-take, length-set,
  get_elem?-set,
}
use ircat.Base.Int.{ℤ, pos, negsuc}
use ircat.State.Casemap.{CaseMapping}
use ircat.State.Whowas.{WhowasEntry, Whowas, new_whowas, no_nick, appended, record_entry, index}

pub record IsValid (w : Whowas) : Type 0 where
  pub cap_pos : 0 < w.cap
  pub filling : w.full ≡ false → length w.entries < w.cap
  pub wrapped : w.full ≡ true → length w.entries ≡ w.cap
  pub head_in : w.head < w.cap

-- `h` lists the entries of the buffer, the newest first.
pub record Represents (w : Whowas) (h : List WhowasEntry) : Type 0 where
  pub size : length h ≡ length w.entries
  pub each : (i : ℕ) → i < length h → get_elem? w.entries (index w i) ≡ get_elem? h i

pub new_whowas-IsValid : (capacity : ℤ) (m : CaseMapping) → IsValid (new_whowas capacity m)
unfolding new_whowas
new_whowas-IsValid (pos n) m = ground arith
new_whowas-IsValid (negsuc n) m = ground arith

pub record_entry-IsValid : (w : Whowas) (e : WhowasEntry) → IsValid w → IsValid (record_entry w e)
unfolding record_entry
record_entry-IsValid w e v = record {
  cap_pos = ground arith;
  filling = λ h. ground (arith, length-append w.entries (e ∷ []));
  wrapped = λ h. ground (arith, length-append w.entries (e ∷ []), length-set w.entries w.head e);
  head_in = ground arith;
}

turn_zero : (head c : ℕ) → head < c → ((head + 1) % c + c - 1 - 0) % c ≡ head
turn_zero head c h =
    ground (arith, turn (head + 1) c, turn (0 + c - 1 - 0) c, turn (head + 1 + c - 1 - 0) c)

turn_suc :
    (head c i : ℕ)
    → head < c
    → suc i < c
    → ((head + 1) % c + c - 1 - suc i) % c ≡ (head + c - 1 - i) % c
turn_suc head c i h k = ground (
  arith,
  turn (head + 1) c,
  turn (0 + c - 1 - suc i) c,
  turn (head + 1 + c - 1 - suc i) c,
  turn (head + c - 1 - i) c,
)

turn_ne : (head c i : ℕ) → head < c → suc i < c → (head == (head + c - 1 - i) % c) ≡ false
turn_ne head c i h k = ground (arith, turn (head + c - 1 - i) c)

-- Writing while the buffer fills: the index counts back from the end.
module _ (w : Whowas) (e : WhowasEntry) (h : List WhowasEntry) (v : IsValid w) (r : Represents w h)
    (filling : w.full ≡ false) (ne : no_nick e ≡ false) where
  filling_entries : (record_entry w e).entries ≡ appended w e
  unfolding record_entry
  filling_entries = ground arith

  filling_index :
      (i : ℕ) → i < length w.entries + 1 → index (record_entry w e) i ≡ length w.entries - i
  unfolding record_entry index
  filling_index i lt = ground (
    arith,
    length-append w.entries (e ∷ []),
    v.filling filling,
    mod_small (w.cap - 1 - i) w.cap,
    mod_small (0 + w.cap - 1 - i) w.cap,
  )

  filling_each :
      (i : ℕ)
      → i < length w.entries + 1
      → get_elem? (appended w e) (length w.entries - i) ≡ get_elem? (e ∷ h) i
  unfolding index
  filling_each zero lt = ap (get_elem? (appended w e)) (omega arith) ∙ get_elem?-concat w.entries e
  filling_each (suc i) lt =
      get_elem?-append_left w.entries (e ∷ []) (length w.entries - suc i) (omega arith)
      ∙ ap (get_elem? w.entries) (ground arith)
      ∙ r.each i (omega (arith, r.size))

  pub filling_step : Represents (record_entry w e) (take w.cap (e ∷ h))
  filling_step = record {
    size = rw filling_entries (
        ground (
          arith,
          length-take w.cap (e ∷ h),
          length-append w.entries (e ∷ []),
          r.size,
          v.filling filling,
        ));
    each = λ i lt.
        let small : i < length w.entries + 1 =
          ground (arith, length-take w.cap (e ∷ h), r.size, v.filling filling) in
        ap (λ l. get_elem? l (index (record_entry w e) i)) filling_entries
        ∙ ap (get_elem? (appended w e)) (filling_index i small)
        ∙ filling_each i small
        ∙ sym (get_elem?-take w.cap (e ∷ h) i (ground (arith, v.filling filling)));
  }

-- Writing once the buffer is full: the oldest entry is overwritten and the head moves on.
module _ (w : Whowas) (e : WhowasEntry) (h : List WhowasEntry) (v : IsValid w) (r : Represents w h)
    (full : w.full ≡ true) (ne : no_nick e ≡ false) where
  full_record :
      record_entry w e ≡ record w { entries = set w.entries w.head e; head = (w.head + 1) % w.cap }
  unfolding record_entry
  full_record = ground arith

  full_index_zero : index (record_entry w e) 0 ≡ w.head
  unfolding index
  full_index_zero = rw (full_record, full) (turn_zero w.head w.cap v.head_in)

  full_index-suc : (i : ℕ) → suc i < w.cap → index (record_entry w e) (suc i) ≡ index w i
  unfolding index
  full_index-suc i lt = rw (full_record, full) (turn_suc w.head w.cap i v.head_in lt)

  full_index_ne : (i : ℕ) → suc i < w.cap → (w.head == index w i) ≡ false
  unfolding index
  full_index_ne i lt = rw full (turn_ne w.head w.cap i v.head_in lt)

  full_each :
      (i : ℕ)
      → i < w.cap
      → get_elem? (set w.entries w.head e) (index (record_entry w e) i) ≡ get_elem? (e ∷ h) i
  full_each zero lt =
      rw full_index_zero
        (ground (arith, get_elem?-set w.entries w.head w.head e, v.wrapped full, v.head_in))
  full_each (suc i) lt = rw (full_index-suc i lt) (
      ground (
        arith,
        get_elem?-set w.entries w.head (index w i) e,
        v.wrapped full,
        v.head_in,
        full_index_ne i lt,
        r.each i,
        r.size,
      ))

  pub full_step : Represents (record_entry w e) (take w.cap (e ∷ h))
  full_step = record {
    size = rw full_record (
        ground (
          arith,
          length-take w.cap (e ∷ h),
          length-set w.entries w.head e,
          r.size,
          v.wrapped full,
        ));
    each = λ i lt.
        let small : i < w.cap = ground (arith, length-take w.cap (e ∷ h), r.size, v.wrapped full) in
        ap (λ x. get_elem? x.entries (index (record_entry w e) i)) full_record
        ∙ full_each i small
        ∙ sym (get_elem?-take w.cap (e ∷ h) i small);
  }
