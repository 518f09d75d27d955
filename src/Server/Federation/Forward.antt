-- ===== src/Server/Federation/Forward.antt =====
-- Forwarding to links, and the netsplit: `HandleSquit`, `broadcastToChannelFederated` and
-- `broadcastToChannel`.
use ircat.Base.{
  ℕ, Bool, not, ◌&&◌, List, [], ◌∷◌, ◌==◌, if◌then◌else◌, Bytes, codes, bytes_eq, nat_eq,
  bytes_has_eq,
}
use ircat.Base.GoMap.{GoMap, has}
use ircat.Base.Int.{ℤ}
use ircat.State.Channel.{UserId, Channel}
use ircat.State.World.{User, is_empty, hostmask, remove_user}
use ircat.Protocol.Message.{Message}
use ircat.Server.Federation.{
  Output, Site, squit_key_eq, push, subscribe_peer_to_channel, or_text, squit_seen_recently,
  record_whowas, as_seen_in, deliver_per_user_channels, to_user, to_link,
}

-- sends to the links that are registered
unfoldable pub to_links : Message → GoMap Bytes (Unit {0}) → List Output
to_links msg [] = []
to_links msg ((peer, _) ∷ m) = to_link peer msg ∷ to_links msg m

unfoldable pub forward_to_all_links : Site → Message → Site
forward_to_all_links s msg = push s (to_links msg s.links)

abbrev pub quit_of : Bytes → User → Message
quit_of reason u = record {
  tags = [];
  prefix = hostmask u;
  command = codes "QUIT";
  params = reason ∷ [];
}

-- one round of the loop of `HandleSquit` over the snapshot
unfoldable pub lose_user : Site → Bytes → Bytes → ℤ → User → Site
lose_user s peer reason time u =
    let s' = record_whowas (deliver_per_user_channels s (quit_of reason u)) u time in
    if bytes_eq u.home_server peer then record s' { world = (remove_user s'.world u.id).0 } else s

unfoldable pub lose_users : Site → Bytes → Bytes → ℤ → GoMap UserId User → Site
unfolding lose_user
lose_users s peer reason time [] = s
lose_users s peer reason time ((_, u) ∷ users) =
    lose_users (lose_user s peer reason time u) peer reason time users

-- the loop over the remaining links
unfoldable pub to_other_links : Bytes → Message → GoMap Bytes (Unit {0}) → List Output
to_other_links peer msg [] = []
to_other_links peer msg ((name, _) ∷ m) =
    if bytes_eq name peer
    then to_other_links peer msg m
    else to_link name msg ∷ to_other_links peer msg m

abbrev pub squit_message : Site → Bytes → Bytes → Message
squit_message s peer reason = record {
  tags = [];
  prefix = s.name;
  command = codes "SQUIT";
  params = peer ∷ reason ∷ [];
}

-- `now` is the monotonic clock, `time` the clock of the server
unfoldable pub handle_squit : Site → Bytes → Bytes → ℕ → ℤ → Site
handle_squit s peer reason₀ now time =
    let reason : Bytes = or_text reason₀ (codes "Net split") in
    let (s', seen) = squit_seen_recently s (peer, reason) now in
    let lost = lose_users s' peer reason time s'.world.by_id in
    if is_empty peer
    then s
    else if seen
    then s'
    else push lost (to_other_links peer (squit_message s peer reason) lost.links)

-- `broadcastToChannel` of internal/server/server.go, to connections and bots
unfoldable pub send_all : Message → UserId → Bool → GoMap UserId ℕ → List Output
send_all msg except include_self [] = []
send_all msg except include_self ((id, _) ∷ ids) =
    if not include_self && id == except
    then send_all msg except include_self ids
    else to_user id msg ∷ send_all msg except include_self ids

unfoldable pub broadcast_to_channel : Site → Channel → Message → UserId → Bool → Site
broadcast_to_channel s ch msg except include_self =
    push s (send_all (as_seen_in ch msg) except include_self ch.members)

-- the loop over the subscriptions
unfoldable pub to_subscribed :
    Site → Bytes → Message → GoMap Bytes (GoMap Bytes (Unit {0})) → List Output
to_subscribed s channel msg [] = []
to_subscribed s channel msg ((peer, chans) ∷ m) =
    if has channel chans && has peer s.links
    then to_link peer msg ∷ to_subscribed s channel msg m
    else to_subscribed s channel msg m

unfoldable pub forward_channel_to_subscribed : Site → Channel → Message → Site
forward_channel_to_subscribed s ch msg = push s (to_subscribed s ch.name msg s.subs)

-- the loop that subscribes the peers
unfoldable pub subscribe_all : Site → Bytes → GoMap Bytes (Unit {0}) → Site
subscribe_all s channel [] = s
subscribe_all s channel ((peer, _) ∷ m) =
    subscribe_all (subscribe_peer_to_channel s peer channel) channel m

abbrev pub is_fanout : Site → Bool
is_fanout s = bytes_eq (or_text s.broadcast_mode (codes "subscription")) (codes "fanout")

unfoldable pub forward_join_to_federation : Site → Channel → Message → Site
forward_join_to_federation s ch msg =
    if is_fanout s
    then forward_to_all_links s msg
    else forward_to_all_links (subscribe_all s ch.name s.links) msg

unfoldable pub broadcast_to_channel_federated : Site → Channel → Message → UserId → Bool → Site
broadcast_to_channel_federated s ch msg except include_self =
    let s' = broadcast_to_channel s ch msg except include_self in
    if is_fanout s'
    then forward_to_all_links s' msg
    else if bytes_eq msg.command (codes "JOIN")
    then forward_to_all_links (subscribe_all s' ch.name s'.links) msg
    else forward_channel_to_subscribed s' ch msg
