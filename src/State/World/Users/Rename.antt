-- ===== src/State/World/Users/Rename.antt =====
-- `RenameUser` and the indexes.
use ircat.Base.{
  ◌≤◌, ◌≡◌, sym, inl, inr, false, none, some, arith, ◌==◌, if◌then◌else◌, Bool-cases, Option-cases,
  Bytes, bytes_eq, bytes_eq_iff, nat_eq, bytes_has_eq, beq_refl,
}
use ircat.Base.GoMap.{get, put, erase, has, get-put, get-erase}
use ircat.State.Casemap.{fold}
use ircat.State.Channel.{UserId}
use ircat.State.World.{User, World, is_empty, rename_found, rename_user}
use ircat.State.World.Users.{key_of, IsConsistent}

-- the world after `RenameUser`, on its two branches that rename
abbrev redisplayed : World → UserId → User → Bytes → World
redisplayed w id u nick = record w { by_id = put id (record u { nick = nick }) w.by_id }

abbrev rekeyed : World → UserId → User → Bytes → World
rekeyed w id u nick = record w {
  by_id = put id (record u { nick = nick }) w.by_id;
  by_nick = put (fold w.mapping nick) id (erase (key_of w u) w.by_nick);
}

module _ (w : World) (v : IsConsistent w) (id : UserId) (u : User) (nick : Bytes)
    (found : get id w.by_id ≡ some u) (ne : is_empty nick ≡ false) where
  renamed : User
  renamed = record u { nick = nick }

  -- The stored users: the renamed one under its ID, all others as before.
  get-renamed :
      (j : UserId)
      → get j (put id renamed w.by_id) ≡ (if id == j then some renamed else get j w.by_id)
  get-renamed j = get-put id j renamed w.by_id

  renamed-fresh : (j : UserId) (x : User) → get j (put id renamed w.by_id) ≡ some x → j ≤ w.last_id
  renamed-fresh j x h = ground (arith, get-renamed j, v.fresh j x, v.fresh id u found)

  module _ (same : fold w.mapping nick ≡ key_of w u) where
    redisplayed-named :
        (k : Bytes) (j : UserId)
        → get k w.by_nick ≡ some j
        → (x : User) × (get j (put id renamed w.by_id) ≡ some x) × (key_of w x ≡ k)
    unfolding renamed
    redisplayed-named k j h =
        let (x, there, named) = v.named k j h in
        elim (Bool-cases (id == j)) [
          | inl e ↦ (renamed, ground (arith, get-renamed j), ground arith)
          | inr e ↦ (x, ground (arith, get-renamed j), named)
        ]

    redisplayed-indexed :
        (j : UserId) (x : User)
        → get j (put id renamed w.by_id) ≡ some x
        → (get (key_of w x) w.by_nick ≡ some j) × (x.id ≡ j) × (is_empty x.nick ≡ false)
    unfolding renamed
    redisplayed-indexed j x h =
        let mine = v.indexed id u found in ground (arith, get-renamed j, v.indexed j x)

    redisplayed-IsConsistent : IsConsistent (redisplayed w id u nick)
    unfolding renamed
    redisplayed-IsConsistent = record {
      named = redisplayed-named;
      indexed = redisplayed-indexed;
      fresh = renamed-fresh;
    }

  module _ (free : has (fold w.mapping nick) w.by_nick ≡ false) where
    get-rekeyed :
        (k : Bytes)
        → get k (rekeyed w id u nick).by_nick ≡ (
            if bytes_eq (fold w.mapping nick) k
            then some id
            else if bytes_eq (key_of w u) k
            then none
            else get k w.by_nick)
    get-rekeyed k = ground (
      arith,
      get-put (fold w.mapping nick) k id (erase (key_of w u) w.by_nick),
      get-erase (key_of w u) k w.by_nick,
    )

    rekeyed-named :
        (k : Bytes) (j : UserId)
        → get k (rekeyed w id u nick).by_nick ≡ some j
        → (x : User) × (get j (put id renamed w.by_id) ≡ some x) × (key_of w x ≡ k)
    unfolding renamed
    rekeyed-named k j h = elim (Bool-cases (bytes_eq (fold w.mapping nick) k)) [
      | inl e ↦ (renamed, ground (arith, get-renamed j, get-rekeyed k), (bytes_eq_iff _ _).0 e)
      | inr e ↦
          let old : get k w.by_nick ≡ some j = ground (arith, get-rekeyed k) in
          let other : bytes_eq (key_of w u) k ≡ false = ground (arith, get-rekeyed k) in
          let (x, there, named) = v.named k j old in
          (x, ground (arith, get-renamed j, bytes_eq_iff (key_of w u) k), named)
    ]

    rekeyed-indexed :
        (j : UserId) (x : User)
        → get j (put id renamed w.by_id) ≡ some x
        → (get (key_of w x) (rekeyed w id u nick).by_nick ≡ some j)
          × (x.id ≡ j)
          × (is_empty x.nick ≡ false)
    unfolding renamed
    rekeyed-indexed j x h = elim (Bool-cases (id == j)) [
      | inl e ↦
          let mine = v.indexed id u found in
          ground (
            arith,
            get-renamed j,
            get-rekeyed (fold w.mapping nick),
            beq_refl (fold w.mapping nick),
          )
      | inr e ↦
          let old : get j w.by_id ≡ some x = ground (arith, get-renamed j) in
          let (there, same, full) = v.indexed j x old in
          let (there', same', full') = v.indexed id u found in
          (
            ground (
              arith,
              get-rekeyed (key_of w x),
              bytes_eq_iff (fold w.mapping nick) (key_of w x),
              bytes_eq_iff (key_of w u) (key_of w x),
            ),
            same,
            full,
          )
    ]

    rekeyed-IsConsistent : IsConsistent (rekeyed w id u nick)
    unfolding renamed
    rekeyed-IsConsistent = record {
      named = rekeyed-named;
      indexed = rekeyed-indexed;
      fresh = renamed-fresh;
    }

  rename_found-IsConsistent : IsConsistent (rename_found w id u nick).0
  unfolding rename_found
  rename_found-IsConsistent = elim (Bool-cases (bytes_eq (key_of w u) (fold w.mapping nick))) [
    | inl e ↦ rw e (redisplayed-IsConsistent (sym ((bytes_eq_iff _ _).0 e)))
    | inr e ↦ elim (Bool-cases (has (fold w.mapping nick) w.by_nick)) [
      | inl t ↦ rw (e, t) v
      | inr t ↦ rw (e, t) (rekeyed-IsConsistent t)
    ]
  ]

pub rename_user-IsConsistent :
    (w : World) (id : UserId) (nick : Bytes)
    → IsConsistent w
    → IsConsistent (rename_user w id nick).0
unfolding rename_user
rename_user-IsConsistent w id nick v = elim (Bool-cases (is_empty nick)) [
  | inl e ↦ rw e v
  | inr e ↦ elim (Option-cases (get id w.by_id)) [
    | inl t ↦ rw (e, t, rename_user) v
    | inr (u, t) ↦ rw (e, t, rename_user) (rename_found-IsConsistent w v id u nick t e)
  ]
]
