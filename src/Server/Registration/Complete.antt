-- ===== src/Server/Registration/Complete.antt =====
-- When a connection becomes a user.
use ircat.Base.{
  ℕ, ◌≡◌, refl, inl, inr, Bool, false, not, ◌&&◌, none, some, arith, if◌then◌else◌, Bool-cases,
  is_some, nat_eq, bytes_has_eq,
}
use ircat.Base.Int.{ℤ}
use ircat.State.Casemap.{CaseMapping, fold}
use ircat.State.World.{new_world, is_empty, find_by_nick, add_user, nick_in_use, err, ok, next_id}
use ircat.State.World.Users.{key_of}
use ircat.State.World.Users.Reach.{Reach, Reach-IsConsistent, taken_iff, add_user_taken}
use ircat.State.World.Users.Added.{entered, added_self}
use ircat.Server.Federation.Forward.{forward_to_all_links}
use ircat.Base.GoMap.{get, put}
use ircat.Server.Registration.{
  Session, Config, pending_user, promote, is_ready, password_ok, try_complete,
}

-- what lets a connection in
abbrev pub admitted : Config → Session → Bool
admitted cfg s =
    is_ready s.conn.pending
    && password_ok cfg s.conn.pending
    && not (is_some (find_by_nick s.site.world s.conn.pending.nick))

module _ {m : CaseMapping} {k : ℕ} (cfg : Config) (s : Session) (now : ℤ)
    (r : Reach (new_world m k) s.site.world) (full : is_empty s.conn.pending.nick ≡ false)
    (new : s.conn.user ≡ none) where
  added : add_user s.site.world (pending_user s.conn now) now ≡ (
      if is_some (find_by_nick s.site.world s.conn.pending.nick)
      then (s.site.world, err nick_in_use)
      else (
        record s.site.world {
          by_nick =
              put
                (key_of s.site.world (pending_user s.conn now))
                (next_id s.site.world)
                s.site.world.by_nick;
          by_id =
              put
                (next_id s.site.world)
                (record (pending_user s.conn now) {
                  id = next_id s.site.world;
                  connect_at = some now;
                })
                s.site.world.by_id;
          last_id = next_id s.site.world;
        },
        ok (next_id s.site.world),
      ))
  added = add_user_taken (pending_user s.conn now) now r full

  user_after :
      (try_complete cfg s now).conn.user
      ≡ (if admitted cfg s then some (next_id s.site.world) else none)
  unfolding try_complete promote
  user_after = ground (arith, added)

  world_after : (try_complete cfg s now).site.world ≡ (
      if admitted cfg s
      then (add_user s.site.world (pending_user s.conn now) now).0
      else s.site.world)
  unfolding try_complete promote forward_to_all_links
  world_after = ground (arith, added)

  free_nick :
      is_some (find_by_nick s.site.world s.conn.pending.nick) ≡ false
      → get (fold s.site.world.mapping s.conn.pending.nick) s.site.world.by_nick ≡ none
  free_nick h = ground (arith, taken_iff (Reach-IsConsistent r) s.conn.pending.nick full)

  holder_after : find_by_nick (try_complete cfg s now).site.world s.conn.pending.nick ≡ (
      if admitted cfg s
      then some (entered s.site.world (pending_user s.conn now) now)
      else find_by_nick s.site.world s.conn.pending.nick)
  holder_after = rw world_after (elim (Bool-cases (admitted cfg s)) [
    | inl e ↦ rw e (
        added_self s.site.world (pending_user s.conn now) now (Reach-IsConsistent r) full
          (free_nick (ground arith)))
    | inr e ↦ rw e refl
  ])

-- On a reached world, for a connection with no user and a nick that is not empty:
-- tryCompleteRegistration gives it a user exactly when NICK and USER have come, a negotiation has
-- ended, the password fits and FindByNick does not find the nick; the user is then stored under
-- the next ID and found by its nick, and otherwise the nick leads to whom it led.
pub try_complete_lem :
    {m : CaseMapping} {k : ℕ} (cfg : Config) (s : Session) (now : ℤ)
    → Reach (new_world m k) s.site.world
    → is_empty s.conn.pending.nick ≡ false
    → s.conn.user ≡ none
    → let s' = try_complete cfg s now in
      (s'.conn.user ≡ (if admitted cfg s then some (next_id s.site.world) else none))
      × (find_by_nick s'.site.world s.conn.pending.nick ≡ (
          if admitted cfg s
          then some (entered s.site.world (pending_user s.conn now) now)
          else find_by_nick s.site.world s.conn.pending.nick))
try_complete_lem cfg s now r full new =
    (user_after cfg s now r full new, holder_after cfg s now r full new)
