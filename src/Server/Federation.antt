-- ===== src/Server/Federation.antt =====
-- internal/server/federation.go: the server's side of federation, which is the `Host` of every
-- link: the registry of links with what they subscribe to, the guard against SQUIT loops, local
-- delivery and forwarding. What is handed to a connection, a bot or a link is written down in
-- `sent`, in order. `time.Now` is the monotonic clock, a number.
pub mod Sends
pub mod Recipients
pub mod Squit
pub mod Forward
use ircat.Base.{
  ℕ, ◌+◌, ◌≡◌, ◌↔◌, Bool, true, false, not, ◌&&◌, ◌||◌, Option, none, some, List, [], ◌∷◌, ◌++◌,
  arith, ltb, ◌==◌, if◌then◌else◌, Eq, any, Bytes, codes, bytes_eq, bytes_eq_iff, nat_eq,
  bytes_has_eq,
}
use ircat.Base.GoMap.{GoMap, get, put, erase, has}
use ircat.Base.Int.{ℤ}
use ircat.State.Channel.{UserId, Channel}
use ircat.State.Whowas.{Whowas, record_entry}
use ircat.State.World.{
  World, User, is_empty, is_remote, find_by_id, find_by_nick, find_channel, user_channels,
}
use ircat.Protocol.Message.{Message}

-- A send: to the connection of the user with an ID, if it has one; to its connection or else its
-- bot, if it has one of these; or to the link of a peer. And the end of a connection, by its nick.
pub data Output : Type 0 where
  to_conn : UserId → Message → Output
  to_user : UserId → Message → Output
  to_link : Bytes → Message → Output
  drop_conn : Bytes → Bytes → Output

abbrev pub SquitKey : Type 0
SquitKey = Bytes × Bytes

pub record Site : Type 0 where
  pub name : Bytes
  pub broadcast_mode : Bytes
  pub world : World
  pub whowas : Whowas
  pub links : GoMap Bytes (Unit {0})
  pub subs : GoMap Bytes (GoMap Bytes (Unit {0}))
  pub squit_seen : GoMap SquitKey ℕ
  pub sent : List Output

abbrev pub key_eq : SquitKey → SquitKey → Bool
key_eq (p, r) (q, t) = bytes_eq p q && bytes_eq r t

pub key_eq_iff : (a b : SquitKey) → (key_eq a b ≡ true) ↔ (a ≡ b)
key_eq_iff (p, r) (q, t) = ground (arith, bytes_eq_iff p q, bytes_eq_iff r t)

instance abbrev pub squit_key_eq : Eq SquitKey
squit_key_eq = record { beq = key_eq; beq_iff = key_eq_iff }

abbrev pub push : Site → List Output → Site
push s out = record s { sent = s.sent ++ out }

unfoldable pub register_link : Site → Bytes → Site
register_link s peer = record s { links = put peer tt s.links }

unfoldable pub unregister_link : Site → Bytes → Site
unregister_link s peer = record s { links = erase peer s.links; subs = erase peer s.subs }

-- the set of channels that a peer subscribes to; a missing set is empty
abbrev pub subs_of : Site → Bytes → GoMap Bytes (Unit {0})
subs_of s peer = elim (get peer s.subs) [ none ↦ [] | some chans ↦ chans ]

unfoldable pub subscribe_peer_to_channel : Site → Bytes → Bytes → Site
subscribe_peer_to_channel s peer channel =
    if is_empty peer || is_empty channel
    then s
    else record s { subs = put peer (put channel tt (subs_of s peer)) s.subs }

abbrev pub or_text : Bytes → Bytes → Bytes
or_text s default = if is_empty s then default else s

unfoldable pub drop_local_user : Site → Bytes → Bytes → Site
drop_local_user s nick reason = push s (drop_conn nick (or_text reason (codes "Killed")) ∷ [])

abbrev pub squit_seen_ttl : ℕ
squit_seen_ttl = 5000000000

-- the entries whose time has not passed
unfoldable pub unexpired : ℕ → GoMap SquitKey ℕ → GoMap SquitKey ℕ
unexpired now [] = []
unexpired now ((k, exp) ∷ m) = if ltb exp now then unexpired now m else (k, exp) ∷ unexpired now m

abbrev pub still_seen : ℕ → Option ℕ → Bool
still_seen now none = false
still_seen now (some exp) = ltb now exp

unfoldable pub squit_seen_recently : Site → SquitKey → ℕ → Site × Bool
squit_seen_recently s key now =
    let fresh = unexpired now s.squit_seen in
    if still_seen now (get key fresh)
    then (record s { squit_seen = fresh }, true)
    else (record s { squit_seen = put key (now + squit_seen_ttl) fresh }, false)

unfoldable pub record_whowas : Site → User → ℤ → Site
record_whowas s u time = record s {
  whowas = record_entry s.whowas (record {
    nick = u.nick;
    user = u.user;
    host = u.host;
    realname = u.realname;
    server = or_text u.home_server s.name;
    when = time;
  });
}

-- `peer != nil && !peer.IsRemote()` of the user with an ID
unfoldable pub is_local : World → UserId → Bool
is_local w id = elim (find_by_id w id) [ none ↦ false | some u ↦ not (is_remote u) ]

unfoldable pub send_local : World → Message → GoMap UserId ℕ → List Output
send_local w msg [] = []
send_local w msg ((id, _) ∷ ids) =
    if is_local w id then to_user id msg ∷ send_local w msg ids else send_local w msg ids

unfoldable pub deliver_channel_local_only : Site → Channel → Message → Site
deliver_channel_local_only s ch msg = push s (send_local s.world msg ch.members)

-- `strings.Cut` by the first `!`, its first half
unfoldable pub sender_nick_from_prefix : Bytes → Bytes
sender_nick_from_prefix [] = []
sender_nick_from_prefix (b ∷ s) = if b == b'!' then [] else b ∷ sender_nick_from_prefix s

abbrev pub anonymous_mask : Bytes
anonymous_mask = codes "anonymous!anonymous@anonymous."

-- the prefix is rewritten on an anonymous channel
abbrev pub as_seen_in : Channel → Message → Message
as_seen_in ch msg = if ch.modes.anonymous then record msg { prefix = anonymous_mask } else msg

-- the loop over the members of one channel; the first result is the map `seen`
unfoldable pub send_members :
    World
    → UserId
    → Message
    → GoMap UserId (Unit {0})
    → GoMap UserId ℕ
    → GoMap UserId (Unit {0}) × List Output
send_members w me out seen [] = (seen, [])
send_members w me out seen ((id, _) ∷ ids) =
    let passed = send_members w me out seen ids in
    let later = send_members w me out (put id tt seen) ids in
    if has id seen || id == me || not (is_local w id)
    then passed
    else (later.0, to_conn id out ∷ later.1)

-- the loop over the channels of a user
unfoldable pub send_channels :
    World → UserId → Message → GoMap UserId (Unit {0}) → List Channel → List Output
send_channels w me msg seen [] = []
send_channels w me msg seen (ch ∷ chs) =
    let (seen', out) = send_members w me (as_seen_in ch msg) seen ch.members in
    out ++ send_channels w me msg seen' chs

unfoldable pub deliver_per_user_channels : Site → Message → Site
deliver_per_user_channels s msg = elim (find_by_nick s.world (sender_nick_from_prefix msg.prefix)) [
  | none ↦ s
  | some u ↦ push s (send_channels s.world u.id msg [] (user_channels s.world u.id))
]

abbrev pub is_local_prefix : Bytes → Bool
is_local_prefix [] = false
is_local_prefix (b ∷ _) = b == b'#' || b == b'&'

-- the loop of `deliverWallopsLocal`: the local users with mode `w`
unfoldable pub wallops : Message → GoMap UserId User → List Output
wallops msg [] = []
wallops msg ((id, u) ∷ m) =
    if not (is_remote u) && any (λ c. c == b'w') u.modes
    then to_conn u.id msg ∷ wallops msg m
    else wallops msg m

unfoldable pub deliver_wallops_local : Site → Message → Site
deliver_wallops_local s msg = push s (wallops msg s.world.by_id)

-- what `DeliverLocal` tells apart
pub data Delivery : Type 0 where
  message channel_event user_event wallops_event other : Delivery

abbrev is_any : Bytes → List Bytes → Bool
is_any c [] = false
is_any c (d ∷ l) = bytes_eq c d || is_any c l

unfoldable pub delivery : Bytes → Delivery
delivery c =
    if is_any c (codes "PRIVMSG" ∷ codes "NOTICE" ∷ [])
    then Delivery.message
    else if is_any c
        (codes "JOIN" ∷ codes "PART" ∷ codes "KICK" ∷ codes "TOPIC" ∷ codes "MODE" ∷ [])
    then Delivery.channel_event
    else if is_any c (codes "QUIT" ∷ codes "NICK" ∷ [])
    then Delivery.user_event
    else if bytes_eq c (codes "WALLOPS")
    then Delivery.wallops_event
    else Delivery.other

abbrev pub deliver_to_channel : Site → Message → Option Channel → Site
deliver_to_channel s msg none = s
deliver_to_channel s msg (some ch) = deliver_channel_local_only s ch msg

abbrev pub deliver_to_user : Site → Message → Option User → Site
deliver_to_user s msg none = s
deliver_to_user s msg (some u) = if is_remote u then s else push s (to_conn u.id msg ∷ [])

unfoldable pub deliver_message : Site → Message → List Bytes → Site
deliver_message s msg [] = s
deliver_message s msg (target ∷ _) =
    if is_local_prefix target
    then deliver_to_channel s msg (find_channel s.world target)
    else deliver_to_user s msg (find_by_nick s.world target)

unfoldable pub deliver_event : Site → Message → List Bytes → Site
deliver_event s msg [] = s
deliver_event s msg (name ∷ _) = deliver_to_channel s msg (find_channel s.world name)

unfoldable pub deliver_as : Delivery → Site → Message → Site
unfolding deliver_message deliver_event
deliver_as Delivery.message s msg = deliver_message s msg msg.params
deliver_as Delivery.channel_event s msg = deliver_event s msg msg.params
deliver_as Delivery.user_event s msg = deliver_per_user_channels s msg
deliver_as Delivery.wallops_event s msg = deliver_wallops_local s msg
deliver_as Delivery.other s msg = s

unfoldable pub deliver_local : Site → Message → Site
deliver_local s msg = deliver_as (delivery msg.command) s msg
