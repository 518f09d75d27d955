-- ===== src/State/World/Users/Added.antt =====
-- Who is found by nick after `AddUser`.
use ircat.Base.{
  ◌+◌, ◌^◌, ◌<◌, ◌≡◌, inl, inr, false, none, some, arith, Option-cases, Bytes, bytes_eq, nat_eq,
  bytes_has_eq, beq_refl,
}
use ircat.Base.GoMap.{get, put, get-put}
use ircat.Base.Int.{ℤ}
use ircat.State.Casemap.{fold}
use ircat.State.World.{World, User, is_empty, find_by_nick, add_user, next_id, or_now}
use ircat.State.World.Users.{IsConsistent}

-- the record under which a user is stored
abbrev pub entered : World → User → ℤ → User
entered w u now = record u { id = next_id w; connect_at = or_now u.connect_at now }

-- After `AddUser` of a user whose nick is free.
module _ (w : World) (u : User) (now : ℤ) (v : IsConsistent w) (full : is_empty u.nick ≡ false)
    (free : get (fold w.mapping u.nick) w.by_nick ≡ none) where
  added_eq : (add_user w u now).0 ≡ record w {
    by_nick = put (fold w.mapping u.nick) (next_id w) w.by_nick;
    by_id = put (next_id w) (entered w u now) w.by_id;
    last_id = next_id w;
  }
  unfolding add_user
  added_eq = ground arith

  pub added_self : find_by_nick (add_user w u now).0 u.nick ≡ some (entered w u now)
  unfolding find_by_nick
  added_self = rw added_eq (
      ground (
        arith,
        get-put (fold w.mapping u.nick) (fold w.mapping u.nick) (next_id w) w.by_nick,
        beq_refl (fold w.mapping u.nick),
        get-put (next_id w) (next_id w) (entered w u now) w.by_id,
      ))

  pub added_other :
      (other : Bytes)
      → w.last_id + 1 < 2 ^ 64
      → bytes_eq (fold w.mapping u.nick) (fold w.mapping other) ≡ false
      → find_by_nick (add_user w u now).0 other ≡ find_by_nick w other
  unfolding find_by_nick
  added_other other room ne =
      rw added_eq (elim (Option-cases (get (fold w.mapping other) w.by_nick)) [
        | inl e ↦
            ground
              (arith, get-put (fold w.mapping u.nick) (fold w.mapping other) (next_id w) w.by_nick)
        | inr (id, e) ↦
            let (x, there, named) = v.named (fold w.mapping other) id e in
            ground (
              arith,
              get-put (fold w.mapping u.nick) (fold w.mapping other) (next_id w) w.by_nick,
              get-put (next_id w) id (entered w u now) w.by_id,
              v.fresh id x there,
            )
      ])
