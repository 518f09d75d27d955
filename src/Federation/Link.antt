-- ===== src/Federation/Link.antt =====
-- `Link` of internal/federation/federation.go and its handshake. The queue of the writer holds 256
-- messages; the writer takes them out between two calls of this file. A link with a full queue is
-- closed. The traffic counters are left out. The calls of the callbacks `OnActive` and `OnClosed`
-- are written down in `events`.
use ircat.Base.{
  ℕ, Bool, true, false, not, ◌&&◌, Option, none, some, List, [], ◌∷◌, ◌++◌, ltb, if◌then◌else◌,
  length, Bytes, codes, bytes_eq,
}
use ircat.Base.Int.{ℤ, pos, ltb_ℤ}
use ircat.State.Channel.Modes.{itoa_positive}
use ircat.State.World.{is_empty}
use ircat.Protocol.Message.{Message}
use ircat.Server.Atoi.{atoi}
use ircat.Server.Federation.{Site}

pub data LinkState : Type 0 where
  handshaking bursting active closed : LinkState

pub record LinkConfig : Type 0 where
  pub peer_name : Bytes
  pub password_in : Bytes
  pub password_out : Bytes
  pub description : Bytes
  pub version : Bytes

pub data Event : Type 0 where
  on_active on_closed : Event

-- `channel_closed` says whether the channel `closed` is closed.
pub record Link : Type 0 where
  pub cfg : LinkConfig
  pub state : LinkState
  pub channel_closed : Bool
  pub peer_name : Bytes
  pub local_name : Bytes
  pub queue : List Message
  pub opened_at : Option ℤ
  pub events : List Event

abbrev pub queue_size : ℕ
queue_size = 256

unfoldable pub new_link : Site → LinkConfig → Link
new_link host cfg = record {
  cfg = cfg;
  state = LinkState.handshaking;
  channel_closed = false;
  peer_name = [];
  local_name = host.name;
  queue = [];
  opened_at = none;
  events = [];
}

abbrev pub is_closed : LinkState → Bool
is_closed LinkState.closed = true
is_closed _ = false

abbrev pub is_active : LinkState → Bool
is_active LinkState.active = true
is_active _ = false

unfoldable pub close : Link → Link
close l = if is_closed l.state then l else record l {
  state = LinkState.closed;
  channel_closed = true;
  events = l.events ++ on_closed ∷ [];
}

-- `Send`. Where the channel is closed and there is room, Go picks one of two cases; a message queued
-- then has no reader.
unfoldable pub send : Link → Message → Link
unfolding close
send l msg =
    if ltb (length l.queue) queue_size
    then record l { queue = l.queue ++ msg ∷ [] }
    else if l.channel_closed
    then l
    else close l

abbrev pub message : Bytes → Bytes → List Bytes → Message
message prefix command params = record {
  tags = [];
  prefix = prefix;
  command = command;
  params = params;
}

-- `handlePass`
unfoldable pub handle_pass : Link → List Bytes → Link
handle_pass l [] = close l
handle_pass l (password ∷ _) = if bytes_eq password l.cfg.password_in then l else close l

-- the clock is past 1970
unfoldable pub send_svinfo : Link → ℕ → Link
send_svinfo l now = send l (
    message l.local_name (codes "SVINFO")
      (codes "6" ∷ codes "6" ∷ codes "0" ∷ itoa_positive (pos now) ∷ []))

-- `handleServer`
unfoldable pub handle_server : Link → List Bytes → ℕ → Link
unfolding send_svinfo
handle_server l [] now = close l
handle_server l (peer ∷ _) now =
    if not (is_empty l.cfg.peer_name) && not (bytes_eq peer l.cfg.peer_name)
    then close l
    else send_svinfo (record l { peer_name = peer }) now

-- whether `handleSvinfo` accepts the version
abbrev pub at_least_3 : Option ℤ → Bool
at_least_3 none = false
at_least_3 (some n) = not (ltb_ℤ n (pos 3))

unfoldable pub svinfo_accepted : List Bytes → Bool
svinfo_accepted (version ∷ _ ∷ _ ∷ _ ∷ _) = at_least_3 (atoi version)
svinfo_accepted _ = false

unfoldable pub go_active : Link → ℤ → Link
go_active l time = record l {
  state = LinkState.active;
  opened_at = some time;
  events = l.events ++ on_active ∷ [];
}

-- the greeting of `OpenOutbound` and of `OpenInbound`; `none` is their error
unfoldable pub open_link : Link → Option Link
open_link l =
    let pass =
      message [] (codes "PASS")
        (l.cfg.password_out ∷ codes "0210" ∷ codes "IRC|" ∷ l.cfg.version ∷ []) in
    let server =
      message [] (codes "SERVER") (l.local_name ∷ codes "1" ∷ codes "1" ∷ l.cfg.description ∷ []) in
    if is_empty l.cfg.password_out then none else some (send (send l pass) server)

-- a link and the node that it works on
pub record Node : Type 0 where
  pub link : Link
  pub site : Site
