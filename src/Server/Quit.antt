-- ===== src/Server/Quit.antt =====
-- The end of a connection: `handleQuit` and `handlePing` of internal/server/handler.go, and `close`
-- with `broadcastQuit` of conn.go. The record that a connection's pointer leads to may have left
-- the world, so it is an argument. Sockets and contexts are left out.
pub mod Clean
use ircat.Base.{true, Option, none, some, List, [], ◌∷◌, Bytes, codes}
use ircat.Base.GoMap.{GoMap}
use ircat.Base.Int.{ℤ}
use ircat.Protocol.Message.{Message, trailing}
use ircat.State.Channel.{UserId, Channel}
use ircat.State.World.{User, part_channel, remove_user, user_channels}
use ircat.Server.Federation.{Site, push, or_text, record_whowas}
use ircat.Server.Federation.Forward.{quit_of, forward_to_all_links}
use ircat.Server.Registration.{Session, reply, error_line, pong}
use ircat.Server.Registration.Commands.{tell_members}

abbrev pub pong_token : Bytes → List Bytes → Bytes
pong_token me [] = me
pong_token me (token ∷ _) = token

unfoldable pub handle_ping : Session → Message → Session
handle_ping s m = reply s (pong s.site.name (pong_token s.site.name m.params))

abbrev pub quit_reason : Option Bytes → Bytes
quit_reason none = codes "Client Quit"
quit_reason (some t) = or_text t (codes "Client Quit")

-- the session, and the reason that is kept for `close`
unfoldable pub handle_quit : Session → Message → Session × Bytes
handle_quit s m =
    let reason = quit_reason (trailing m) in
    (reply (record s { conn = record s.conn { cancelled = true } }) (error_line reason), reason)

-- the loop over the channels of the user
unfoldable pub leave_channels :
    Site → UserId → Message → GoMap UserId (Unit {0}) → List Channel → Site
leave_channels s id msg seen [] = s
leave_channels s id msg seen (ch ∷ chs) =
    let (seen', out) = tell_members msg seen ch.members in
    let told = push s out in
    leave_channels (record told { world = (part_channel told.world id ch.name).0 }) id msg seen' chs

unfoldable pub broadcast_quit : Site → User → Bytes → Site
unfolding leave_channels
broadcast_quit s u reason =
    let msg = quit_of reason u in
    forward_to_all_links (leave_channels s u.id msg ((u.id, tt) ∷ []) (user_channels s.world u.id))
      msg

unfoldable pub close_conn : Site → Option User → Bytes → ℤ → Site
unfolding broadcast_quit
close_conn s none reason now = s
close_conn s (some u) reason now =
    let told = broadcast_quit s u (or_text reason (codes "Client closed connection")) in
    let s' = record_whowas told u now in record s' { world = (remove_user s'.world u.id).0 }
