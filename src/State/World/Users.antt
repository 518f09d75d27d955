-- ===== src/State/World/Users.antt =====
-- The two user indexes agree; here, when a user is added.
pub mod Added
pub mod Leave
pub mod Rename
pub mod Reach
use ircat.Base.{
  ℕ, ◌+◌, ◌^◌, ◌≤◌, ◌<◌, ◌≡◌, inl, inr, false, some, arith, ◌==◌, Bool-cases, Bytes, bytes_eq,
  bytes_eq_iff, nat_eq, bytes_has_eq, beq_refl,
}
use ircat.Base.GoMap.{get, put, has, get-put}
use ircat.Base.Int.{ℤ}
use ircat.State.Casemap.{CaseMapping, fold}
use ircat.State.Channel.{UserId}
use ircat.State.World.{User, World, is_empty, next_id, or_now, new_world, add_user}

abbrev pub key_of : World → User → Bytes
key_of w u = fold w.mapping u.nick

pub record IsConsistent (w : World) : Type 0 where
  -- A nick in the index leads to a user of that nick.
  pub named :
      (k : Bytes) (id : UserId)
      → get k w.by_nick ≡ some id
      → (u : User) × (get id w.by_id ≡ some u) × (key_of w u ≡ k)
  -- A user is found under its nick, and carries the ID it is stored under.
  pub indexed :
      (id : UserId) (u : User)
      → get id w.by_id ≡ some u
      → (get (key_of w u) w.by_nick ≡ some id) × (u.id ≡ id) × (is_empty u.nick ≡ false)
  -- IDs not given out yet are free.
  pub fresh : (id : UserId) (u : User) → get id w.by_id ≡ some u → id ≤ w.last_id

new_world-IsConsistent : (m : CaseMapping) (n : ℕ) → IsConsistent (new_world m n)
unfolding get
new_world-IsConsistent m n = record {
  named = λ k id h. cc;
  indexed = λ id u h. cc;
  fresh = λ id u h. cc;
}

-- the world after `AddUser`, on its branch that adds
abbrev added : World → User → ℤ → World
added w u now = record w {
  by_nick = put (fold w.mapping u.nick) (next_id w) w.by_nick;
  by_id =
      put (next_id w) (record u { id = next_id w; connect_at = or_now u.connect_at now }) w.by_id;
  last_id = next_id w;
}

module _ (w : World) (v : IsConsistent w) (u : User) (now : ℤ) (room : w.last_id + 1 < 2 ^ 64)
    (free : has (fold w.mapping u.nick) w.by_nick ≡ false) (ne : is_empty u.nick ≡ false) where
  stored : User
  stored = record u { id = next_id w; connect_at = or_now u.connect_at now }

  added-named :
      (k : Bytes) (id : UserId)
      → get k (added w u now).by_nick ≡ some id
      → (x : User) × (get id (added w u now).by_id ≡ some x) × (key_of w x ≡ k)
  unfolding stored
  added-named k id h = elim (Bool-cases (bytes_eq (fold w.mapping u.nick) k)) [
    | inl e ↦ (
      stored,
      ground (
        arith,
        get-put (fold w.mapping u.nick) k (next_id w) w.by_nick,
        get-put (next_id w) id stored w.by_id,
      ),
      (bytes_eq_iff _ _).0 e,
    )
    | inr e ↦
        let old : get k w.by_nick ≡ some id =
          ground (arith, get-put (fold w.mapping u.nick) k (next_id w) w.by_nick) in
        let (x, there, named) = v.named k id old in
        (x, ground (arith, get-put (next_id w) id stored w.by_id, v.fresh id x there), named)
  ]

  added-indexed :
      (id : UserId) (x : User)
      → get id (added w u now).by_id ≡ some x
      → (get (key_of w x) (added w u now).by_nick ≡ some id)
        × (x.id ≡ id)
        × (is_empty x.nick ≡ false)
  unfolding stored
  added-indexed id x h = elim (Bool-cases (next_id w == id)) [
    | inl e ↦
        let here : some stored ≡ some x = ground (arith, get-put (next_id w) id stored w.by_id) in
        let same : stored ≡ x = cc in
        rw (← same) (
          ground (
            arith,
            get-put (fold w.mapping u.nick) (fold w.mapping u.nick) (next_id w) w.by_nick,
            beq_refl (fold w.mapping u.nick),
          ),
          ground arith,
          ne,
        )
    | inr e ↦
        let old : get id w.by_id ≡ some x = ground (arith, get-put (next_id w) id stored w.by_id) in
        let (there, same, full) = v.indexed id x old in
        (
          ground (
            arith,
            get-put (fold w.mapping u.nick) (key_of w x) (next_id w) w.by_nick,
            bytes_eq_iff (fold w.mapping u.nick) (key_of w x),
          ),
          same,
          full,
        )
  ]

  added-fresh : (id : UserId) (x : User) → get id (added w u now).by_id ≡ some x → id ≤ next_id w
  unfolding stored
  added-fresh id x h = ground (arith, get-put (next_id w) id stored w.by_id, v.fresh id x)

  added-IsConsistent : IsConsistent (added w u now)
  added-IsConsistent = record { named = added-named; indexed = added-indexed; fresh = added-fresh }

pub add_user-IsConsistent :
    (w : World) (u : User) (now : ℤ)
    → w.last_id + 1 < 2 ^ 64
    → IsConsistent w
    → IsConsistent (add_user w u now).0
unfolding add_user
add_user-IsConsistent w u now room v = elim (Bool-cases (is_empty u.nick)) [
  | inl e ↦ rw e v
  | inr e ↦ elim (Bool-cases (has (fold w.mapping u.nick) w.by_nick)) [
    | inl t ↦ rw (e, t) v
    | inr t ↦ rw (e, t) (added-IsConsistent w v u now room t e)
  ]
]
