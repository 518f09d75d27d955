-- ===== src/State/World/Users/Leave.antt =====
-- `RemoveUser` and the indexes.
use ircat.Base.{
  ◌≤◌, ◌≡◌, refl, inl, inr, false, none, some, arith, ◌==◌, if◌then◌else◌, ==_iff, Option-cases,
  Bytes, bytes_eq, bytes_eq_iff, nat_eq, bytes_has_eq,
}
use ircat.Base.GoMap.{get, erase, get-erase}
use ircat.State.Channel.{UserId}
use ircat.State.World.{find_by_id, User, World, is_empty, remove_user}
use ircat.State.World.Users.{key_of, IsConsistent}

-- Removing a user keeps the indexes consistent.
abbrev removed : World → UserId → User → World
removed w id u = record w { by_id = erase id w.by_id; by_nick = erase (key_of w u) w.by_nick }

module _ (w : World) (v : IsConsistent w) (id : UserId) (u : User)
    (found : get id w.by_id ≡ some u) where
  removed-named :
      (k : Bytes) (j : UserId)
      → get k (removed w id u).by_nick ≡ some j
      → (x : User) × (get j (removed w id u).by_id ≡ some x) × (key_of w x ≡ k)
  removed-named k j h =
      let old : get k w.by_nick ≡ some j = ground (arith, get-erase (key_of w u) k w.by_nick) in
      let (x, there, named) = v.named k j old in
      let other : bytes_eq (key_of w u) k ≡ false =
        ground (arith, get-erase (key_of w u) k w.by_nick) in
      (x, ground (arith, get-erase id j w.by_id, bytes_eq_iff (key_of w u) k), named)

  removed-indexed :
      (j : UserId) (x : User)
      → get j (removed w id u).by_id ≡ some x
      → (get (key_of w x) (removed w id u).by_nick ≡ some j)
        × (x.id ≡ j)
        × (is_empty x.nick ≡ false)
  removed-indexed j x h =
      let old : get j w.by_id ≡ some x = ground (arith, get-erase id j w.by_id) in
      let (there, same, full) = v.indexed j x old in
      let mine = v.indexed id u found in
      (
        ground (
          arith,
          get-erase (key_of w u) (key_of w x) w.by_nick,
          get-erase id j w.by_id,
          bytes_eq_iff (key_of w u) (key_of w x),
          mine.0,
        ),
        same,
        full,
      )

  removed-fresh : (j : UserId) (x : User) → get j (removed w id u).by_id ≡ some x → j ≤ w.last_id
  removed-fresh j x h = ground (arith, get-erase id j w.by_id, v.fresh j x)

  removed-IsConsistent : IsConsistent (removed w id u)
  removed-IsConsistent = record {
    named = removed-named;
    indexed = removed-indexed;
    fresh = removed-fresh;
  }

pub remove_user-IsConsistent :
    (w : World) (id : UserId) → IsConsistent w → IsConsistent (remove_user w id).0
unfolding remove_user
remove_user-IsConsistent w id v = elim (Option-cases (get id w.by_id)) [
  | inl e ↦ rw (e, remove_user) v
  | inr (u, e) ↦ rw (e, remove_user) (removed-IsConsistent w v id u e)
]

-- What a removal leaves: the channels, and the other users.
pub removed_channels : (w : World) (id : UserId) → (remove_user w id).0.by_channel ≡ w.by_channel
unfolding remove_user
removed_channels w id = elim (Option-cases (get id w.by_id)) [
  | inl e ↦ rw (e, remove_user) refl
  | inr (u, e) ↦ rw (e, remove_user) refl
]

pub removed_id : (w : World) (id : UserId) → find_by_id (remove_user w id).0 id ≡ none
unfolding remove_user find_by_id
removed_id w id = elim (Option-cases (get id w.by_id)) [
  | inl e ↦ rw (e, remove_user) e
  | inr (u, e) ↦ rw (e, remove_user) (ground (arith, get-erase id id w.by_id))
]

pub get-remove_user :
    (w : World) (id j : UserId)
    → get j (remove_user w id).0.by_id ≡ (if id == j then none else get j w.by_id)
unfolding remove_user
get-remove_user w id j = elim (Option-cases (get id w.by_id)) [
  | inl e ↦ rw (e, remove_user) (ground (arith, ==_iff id j))
  | inr (u, e) ↦ rw (e, remove_user) (get-erase id j w.by_id)
]
