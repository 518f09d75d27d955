-- ===== src/Federation/Nick.antt =====
-- `handleRemoteNick` of internal/federation/federation.go: the user that a NICK line announces, the
-- collision of its nick with one that is taken, and the rename of a remote user.
pub mod Dropped
pub mod Collision
pub mod Announced
pub mod Split
use ircat.Base.{
  Bool, true, false, not, ◌&&◌, Option, none, some, List, [], ◌∷◌, ◌==◌, if◌then◌else◌, Bytes,
  codes,
}
use ircat.Base.Int.{ℤ, pos, ltb_ℤ, eq_ℤ}
use ircat.Protocol.Text.{cut}
use ircat.Protocol.Message.{Message}
use ircat.State.World.{User, is_empty, is_remote, find_by_nick, add_user, remove_user, rename_user}
use ircat.Server.Atoi.{atoi}
use ircat.Server.Federation.{deliver_local, drop_local_user}
use ircat.Federation.Link.{Node, message, send}

unfoldable pub sender_from_prefix : Bytes → Bytes
sender_from_prefix prefix = elim (cut b'!' prefix) [ none ↦ prefix | some (nick, _) ↦ nick ]

-- `strings.TrimPrefix(s, "+")`
abbrev pub trim_plus : Bytes → Bytes
trim_plus [] = []
trim_plus (b ∷ s) = if b == b'+' then s else b ∷ s

-- what a NICK line says of its user
pub record Incoming : Type 0 where
  pub nick : Bytes
  pub user : Bytes
  pub host : Bytes
  pub server : Bytes
  pub modes : Bytes
  pub ts : ℤ
  pub realname : Bytes

-- the timestamp and the real name, by the layout of the line
abbrev pub stamped : Bytes → Bytes → Option ℤ → ℤ × Bytes
stamped p6 p7 none = (pos 0, p6)
stamped p6 p7 (some ts) = (ts, p7)

unfoldable pub ts_and_realname : Bytes → List Bytes → ℤ × Bytes
ts_and_realname p6 [] = (pos 0, p6)
ts_and_realname p6 (p7 ∷ _) = stamped p6 p7 (atoi p6)

unfoldable pub read_incoming : List Bytes → Option Incoming
unfolding ts_and_realname
read_incoming (nick ∷ _ ∷ user ∷ host ∷ server ∷ modes ∷ p6 ∷ rest) =
    let (ts, realname) = ts_and_realname p6 rest in
    some (record {
      nick = nick;
      user = user;
      host = host;
      server = server;
      modes = trim_plus modes;
      ts = ts;
      realname = realname;
    })
read_incoming _ = none

-- the user that is added for it
abbrev pub incoming_user : Incoming → User
incoming_user i = record {
  id = 0;
  nick = i.nick;
  user = i.user;
  host = i.host;
  realname = i.realname;
  modes = i.modes;
  registered = true;
  connect_at = none;
  home_server = i.server;
  ts = i.ts;
  away = [];
  account = [];
  service = false;
  service_type = [];
  service_distribution = [];
}

-- the cases of the `switch` on the timestamps of the incoming and of the existing user
pub data Clash : Type 0 where
  both_lose incoming_loses incoming_wins : Clash

abbrev pub is_set : ℤ → Bool
is_set t = not (eq_ℤ t (pos 0))

unfoldable pub clash : ℤ → ℤ → Clash
clash ts old =
    if is_set ts && is_set old && eq_ℤ ts old
    then Clash.both_lose
    else if is_set ts && is_set old && ltb_ℤ old ts
    then Clash.incoming_loses
    else Clash.incoming_wins

abbrev pub kill_message : Bytes → Bytes → Bytes → Message
kill_message from nick reason = message from (codes "KILL") (nick ∷ reason ∷ [])

abbrev pub equal_ts : Bytes
equal_ts = codes "Nick collision (equal TS, both lose)"

abbrev pub ts_lost : Bytes
ts_lost = codes "Nick collision (TS lost)"

abbrev pub send_kill : Node → Bytes → Bytes → Node
send_kill n nick reason = record n {
  link = send n.link (kill_message n.link.local_name nick reason);
}

-- The existing user leaves the world, and its connection is dropped where it is local.
unfoldable pub drop_existing : Node → User → Bytes → Node
drop_existing n u reason =
    let site = record n.site { world = (remove_user n.site.world u.id).0 } in
    record n { site = if is_remote u then site else drop_local_user site u.nick reason }

unfoldable pub add_incoming : Node → Incoming → ℤ → Node
add_incoming n i now = record n {
  site = record n.site { world = (add_user n.site.world (incoming_user i) now).0 };
}

unfoldable pub resolve : Clash → Node → Incoming → User → ℤ → Node
unfolding drop_existing add_incoming
resolve Clash.both_lose n i old now = drop_existing (send_kill n i.nick equal_ts) old equal_ts
resolve Clash.incoming_loses n i old now = send_kill n i.nick ts_lost
resolve Clash.incoming_wins n i old now = add_incoming (drop_existing n old ts_lost) i now

unfoldable pub announce : Node → Incoming → ℤ → Node
unfolding add_incoming
announce n i now = elim (find_by_nick n.site.world i.nick) [
  | none ↦ add_incoming n i now
  | some old ↦ resolve (clash i.ts old.ts) n i old now
]

-- The rename of the user whom the prefix names. The message is delivered first.
abbrev pub rename_found : Node → Message → Bytes → Option User → Node
rename_found n msg nick none = n
rename_found n msg nick (some u) =
    let site = deliver_local n.site msg in
    if not (is_remote u)
    then n
    else record n { site = record site { world = (rename_user site.world u.id nick).0 } }

abbrev pub announce_read : Node → ℤ → Option Incoming → Node
announce_read n now none = n
announce_read n now (some i) = announce n i now

unfoldable pub nick_params : Node → Message → List Bytes → ℤ → Node
unfolding read_incoming
nick_params n msg (nick ∷ []) now =
    if is_empty msg.prefix
    then n
    else rename_found n msg nick (find_by_nick n.site.world (sender_from_prefix msg.prefix))
nick_params n msg params now = announce_read n now (read_incoming params)

unfoldable pub handle_remote_nick : Node → Message → ℤ → Node
unfolding nick_params
handle_remote_nick n msg now = nick_params n msg msg.params now
