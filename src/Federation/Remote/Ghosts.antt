-- ===== src/Federation/Remote/Ghosts.antt =====
-- What the QUIT of a remote user leaves behind.
use ircat.Base.{ℕ, ◌≡◌, ap, true, none, some, nat_eq}
use ircat.Federation.Nick.Dropped.{without_self}
use ircat.State.Casemap.{CaseMapping}
use ircat.State.World.{User, new_world, is_remote, find_by_nick, find_by_id, remove_user}
use ircat.State.World.Users.Reach.{Reach, Reach-IsConsistent}
use ircat.State.World.Users.Leave.{removed_channels, removed_id}
use ircat.Protocol.Message.{Message}
use ircat.Server.Federation.{Site}
use ircat.Server.Federation.Sends.{deliver_local-world}
use ircat.Federation.Nick.{sender_from_prefix}
use ircat.Federation.Remote.{sender, handle_remote_quit}

quit_world :
    (s : Site) (m : Message) (u : User)
    → sender s m ≡ some u
    → is_remote u ≡ true
    → (handle_remote_quit s m).world ≡ (remove_user s.world u.id).0
unfolding handle_remote_quit
quit_world s m u h r = rw (h, r) (ap (λ w. (remove_user w u.id).0) (deliver_local-world s m))

-- A QUIT of a remote user, on a reached world, takes the user out of the nick index and the ID
-- index, and leaves every channel as it was, with the user among the members.
pub remote_quit_ghost :
    {m : CaseMapping} {k : ℕ} (s : Site) (msg : Message) (u : User)
    → Reach (new_world m k) s.world
    → find_by_nick s.world (sender_from_prefix msg.prefix) ≡ some u
    → is_remote u ≡ true
    → let s' = handle_remote_quit s msg in
      (find_by_nick s'.world (sender_from_prefix msg.prefix) ≡ none)
      × (find_by_id s'.world u.id ≡ none)
      × (s'.world.by_channel ≡ s.world.by_channel)
remote_quit_ghost s msg u reach h r = rw (quit_world s msg u h r) (
  without_self s.world (Reach-IsConsistent reach) (sender_from_prefix msg.prefix) u h,
  removed_id s.world u.id,
  removed_channels s.world u.id,
)
