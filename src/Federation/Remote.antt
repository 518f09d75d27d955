-- ===== src/Federation/Remote.antt =====
-- The other handlers of internal/federation/federation.go for what a peer tells: services, QUIT,
-- JOIN, PART, KICK, TOPIC, MODE, KILL and SQUIT.
pub mod Ghosts
pub mod Locals
use ircat.Base.{ℕ, true, not, Option, none, some, List, [], ◌∷◌, ◌++◌, if◌then◌else◌, Bytes, codes}
use ircat.Base.Int.{ℤ, pos, ltb_ℤ}
use ircat.Protocol.Message.{Message}
use ircat.State.Channel.{Channel, adopt_older_ts, reset_membership_flags, set_topic}
use ircat.State.World.{
  World, User, is_empty, is_remote, hostmask, find_by_nick, find_channel, add_user, remove_user,
  join_channel, part_channel, store_channel,
}
use ircat.Server.Atoi.{atoi}
use ircat.Server.Federation.{
  Site, deliver_local, drop_local_user, subscribe_peer_to_channel, is_local_prefix,
}
use ircat.Server.Federation.Forward.{handle_squit}
use ircat.Federation.Link.{Link, message}
use ircat.Federation.Modes.{apply_remote_channel_mode}
use ircat.Federation.Nick.{sender_from_prefix}

abbrev pub set_world : Site → World → Site
set_world s w = record s { world = w }

-- A handler on the user whom the prefix names, where that is a remote user.
abbrev pub on_remote : Site → Option User → (User → Site) → Site
on_remote s none f = s
on_remote s (some u) f = if is_remote u then f u else s

abbrev pub sender : Site → Message → Option User
sender s msg = find_by_nick s.world (sender_from_prefix msg.prefix)

abbrev pub service_user : Bytes → Bytes → Bytes → Bytes → Bytes → ℤ → User
service_user name server info stype distribution now = record {
  id = 0;
  nick = name;
  user = codes "service";
  host = server;
  realname = info;
  modes = [];
  registered = true;
  connect_at = none;
  home_server = server;
  ts = now;
  away = [];
  account = [];
  service = true;
  service_type = stype;
  service_distribution = distribution;
}

unfoldable pub service_params : Site → Bytes → List Bytes → ℤ → Site
service_params s server (name ∷ _ ∷ distribution ∷ stype ∷ _ ∷ info ∷ _) now =
    let u = service_user name server info stype distribution now in
    elim (find_by_nick s.world name) [ some _ ↦ s | none ↦ set_world s (add_user s.world u now).0 ]
service_params s server _ now = s

unfoldable pub handle_remote_service : Link → Site → Message → ℤ → Site
unfolding service_params
handle_remote_service l s msg now =
    let named = sender_from_prefix msg.prefix in
    service_params s (if is_empty named then l.peer_name else named) msg.params now

unfoldable pub handle_remote_quit : Site → Message → Site
handle_remote_quit s msg =
    on_remote s (sender s msg)
      λ u. let s' = deliver_local s msg in set_world s' (remove_user s'.world u.id).0

-- `ch.AdoptOlderTS(ts)`, and the reset of the flags if it won
unfoldable pub adopt : Channel → ℤ → Channel
adopt ch ts =
    let (ch', older) = adopt_older_ts ch ts in if older then reset_membership_flags ch' else ch'

abbrev pub adopt_found : World → Bytes → ℤ → Option Channel → World
adopt_found w name ts none = w
adopt_found w name ts (some ch) = store_channel w name (adopt ch ts)

abbrev pub adopt_read : World → Bytes → Option ℤ → World
adopt_read w name none = w
adopt_read w name (some ts) =
    if ltb_ℤ (pos 0) ts then adopt_found w name ts (find_channel w name) else w

-- the second parameter of JOIN
unfoldable pub adopt_param : World → Bytes → List Bytes → World
unfolding adopt
adopt_param w name [] = w
adopt_param w name (ts ∷ _) = adopt_read w name (atoi ts)

unfoldable pub join_params : Link → Site → Message → List Bytes → ℤ → Site
unfolding adopt_param
join_params l s msg [] now = s
join_params l s msg (name ∷ rest) now = on_remote s (sender s msg) λ u.
    let w = adopt_param (join_channel s.world u.id name now).0 name rest in
    deliver_local (subscribe_peer_to_channel (set_world s w) l.peer_name name) msg

unfoldable pub handle_remote_join : Link → Site → Message → ℤ → Site
unfolding join_params
handle_remote_join l s msg now = join_params l s msg msg.params now

unfoldable pub part_params : Site → Message → List Bytes → Site
part_params s msg [] = s
part_params s msg (name ∷ _) =
    on_remote s (sender s msg)
      λ u. let s' = deliver_local s msg in set_world s' (part_channel s'.world u.id name).0

unfoldable pub handle_remote_part : Site → Message → Site
unfolding part_params
handle_remote_part s msg = part_params s msg msg.params

unfoldable pub kick_params : Site → Message → List Bytes → Site
kick_params s msg (name ∷ victim ∷ _) = elim (find_by_nick s.world victim) [
  | none ↦ s
  | some u ↦ let s' = deliver_local s msg in set_world s' (part_channel s'.world u.id name).0
]
kick_params s msg _ = s

unfoldable pub handle_remote_kick : Site → Message → Site
unfolding kick_params
handle_remote_kick s msg = kick_params s msg msg.params

unfoldable pub topic_params : Site → Message → List Bytes → ℤ → Site
topic_params s msg (name ∷ text ∷ _) now = elim (find_channel s.world name) [
  | none ↦ s
  | some ch ↦
      deliver_local
        (set_world s (store_channel s.world name (set_topic ch text msg.prefix (some now)))) msg
]
topic_params s msg _ now = s

unfoldable pub handle_remote_topic : Site → Message → ℤ → Site
unfolding topic_params
handle_remote_topic s msg now = topic_params s msg msg.params now

abbrev pub mode_of_found : Site → Message → Bytes → List Bytes → ℤ → Option Channel → Site
mode_of_found s msg name rest now none = s
mode_of_found s msg name rest now (some ch) =
    deliver_local
      (set_world s (store_channel s.world name (apply_remote_channel_mode s.world ch rest now))) msg

unfoldable pub mode_params : Site → Message → List Bytes → ℤ → Site
mode_params s msg (target ∷ word ∷ args) now =
    if not (is_local_prefix target)
    then deliver_local s msg
    else mode_of_found s msg target (word ∷ args) now (find_channel s.world target)
mode_params s msg _ now = s

unfoldable pub handle_remote_mode : Site → Message → ℤ → Site
unfolding mode_params
handle_remote_mode s msg now = mode_params s msg msg.params now

abbrev pub killed_text : Message → Bytes → Bytes
killed_text msg reason =
    codes "Killed (" ++ (sender_from_prefix msg.prefix ++ (codes " (" ++ (reason ++ codes "))")))

unfoldable pub kill_params : Site → Message → List Bytes → Site
kill_params s msg (nick ∷ reason ∷ _) = elim (find_by_nick s.world nick) [
  | none ↦ s
  | some u ↦
      let quit = message (hostmask u) (codes "QUIT") (killed_text msg reason ∷ []) in
      let s' = deliver_local s quit in
      if is_remote u
      then set_world s' (remove_user s'.world u.id).0
      else drop_local_user s' u.nick reason
]
kill_params s msg _ = s

unfoldable pub handle_remote_kill : Site → Message → Site
unfolding kill_params
handle_remote_kill s msg = kill_params s msg msg.params

-- `now` is the monotonic clock, `time` the clock of the server
unfoldable pub squit_params : Site → List Bytes → ℕ → ℤ → Site
squit_params s [] now time = s
squit_params s (peer ∷ []) now time = handle_squit s peer [] now time
squit_params s (peer ∷ reason ∷ _) now time = handle_squit s peer reason now time

unfoldable pub handle_remote_squit : Site → Message → ℕ → ℤ → Site
unfolding squit_params
handle_remote_squit s msg now time = squit_params s msg.params now time
