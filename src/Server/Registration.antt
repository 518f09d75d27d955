-- ===== src/Server/Registration.antt =====
-- How a connection registers: PASS, NICK, USER and CAP of internal/server/handler.go, with caps.go,
-- and `tryCompleteRegistration` of welcome.go. A connection holds its user by ID, and reads the
-- record in the world; `Registered` is set on every user that a connection holds. Replies are the
-- values of `Reply`; what goes to other users and to links is `sent` of the site.
pub mod Nicknames
pub mod Caps
pub mod Complete
pub mod Lifecycle
pub mod Commands
use ircat.Base.{
  ℕ, Bool, true, false, not, ◌&&◌, ◌||◌, Option, none, some, List, [], ◌∷◌, ◌++◌, leb, ◌==◌,
  if◌then◌else◌, is_some, length, all, Bytes, codes, bytes_eq, nat_eq, bytes_has_eq,
}
use ircat.Base.GoMap.{GoMap}
use ircat.Base.Int.{ℤ, pos, negsuc}
use ircat.State.Channel.{UserId}
use ircat.State.World.{World, User, nick_in_use, Result, ok, err, is_empty, add_user}
use ircat.Protocol.Message.{Message}
use ircat.Server.Federation.{Site}
use ircat.Server.Federation.Forward.{forward_to_all_links}
use ircat.Federation.Burst.{user_line}

pub record Pending : Type 0 where
  pub nick : Bytes
  pub user : Bytes
  pub realname : Bytes
  pub password : Bytes
  pub pass_version : Bytes
  pub pass_flags : Bytes
  pub nick_set : Bool
  pub user_set : Bool
  pub cap_negotiating : Bool
  pub cap_ended : Bool
  pub account : Bytes

pub record Conn : Type 0 where
  pub pending : Pending
  pub user : Option UserId
  pub remote_host : Bytes
  pub caps_accepted : GoMap Bytes (Unit {0})
  pub cancelled : Bool

pub data Reply : Type 0 where
  no_nickname_given already_registred restricted passwd_mismatch welcome : Reply
  pong : Bytes → Bytes → Reply
  erroneus_nickname nickname_in_use need_more_params error_line : Bytes → Reply
  nick_change : Message → Reply
  cap_reply : Bytes → Bytes → Reply

pub record Config : Type 0 where
  pub nick_length : ℤ
  pub client_password : Bytes

pub record Session : Type 0 where
  pub conn : Conn
  pub site : Site
  pub replies : List Reply

abbrev pub reply : Session → Reply → Session
reply s r = record s { replies = s.replies ++ r ∷ [] }

abbrev pub with_pending : Session → Pending → Session
with_pending s p = record s { conn = record s.conn { pending = p } }

abbrev pub set_site : Session → Site → Session
set_site s site = record s { site = site }

abbrev pub registered : Conn → Bool
registered c = is_some c.user

unfoldable pub is_nick_byte : ℕ → Bool
is_nick_byte c =
    leb b'A' c && leb c b'Z'
    || leb b'a' c && leb c b'z'
    || leb b'0' c && leb c b'9'
    || c == b'-'
    || c == b'_'
    || c == b'['
    || c == b']'
    || c == 0x5c
    || c == b'`'
    || c == b'^'
    || c == b'{'
    || c == b'}'
    || c == b'|'
    || c == b'~'

-- the limit, by default 30
abbrev pub nick_limit : ℤ → ℕ
nick_limit (negsuc _) = 30
nick_limit (pos n) = if n == 0 then 30 else n

unfoldable pub valid_nickname : Bytes → ℤ → Bool
unfolding is_nick_byte all
valid_nickname [] max = false
valid_nickname (c ∷ s) max =
    leb (length (c ∷ s)) (nick_limit max)
    && not (leb b'0' c && leb c b'9' || c == b'-')
    && all is_nick_byte (c ∷ s)

-- the user that a registration adds
abbrev pub pending_user : Conn → ℤ → User
pending_user c now = record {
  id = 0;
  nick = c.pending.nick;
  user = c.pending.user;
  host = c.remote_host;
  realname = c.pending.realname;
  modes = [];
  registered = true;
  connect_at = none;
  home_server = [];
  ts = now;
  away = [];
  account = c.pending.account;
  service = false;
  service_type = [];
  service_distribution = [];
}

-- the branches behind `AddUser`
unfoldable pub promote : Session → User → World × Result UserId → Session
promote s u (w, ok id) =
    let site = record s.site { world = w } in
    reply
      (record s {
        conn = record s.conn { user = some id };
        site = forward_to_all_links site (user_line site.name u);
      })
      welcome
promote s u (w, err nick_in_use) =
    reply (with_pending s (record s.conn.pending { nick = []; nick_set = false }))
      (nickname_in_use s.conn.pending.nick)
promote s u (w, err e) =
    reply (record s { conn = record s.conn { cancelled = true } })
      (error_line (codes "Internal server error"))

abbrev pub bad_password : Session → Session
bad_password s = record s {
  conn = record s.conn { cancelled = true };
  replies = s.replies ++ passwd_mismatch ∷ error_line (codes "Bad password") ∷ [];
}

-- NICK and USER have come, and CAP END if the client negotiates
abbrev pub is_ready : Pending → Bool
is_ready p = p.nick_set && p.user_set && not (p.cap_negotiating && not p.cap_ended)

abbrev pub password_ok : Config → Pending → Bool
password_ok cfg p = is_empty cfg.client_password || bytes_eq p.password cfg.client_password

unfoldable pub try_complete : Config → Session → ℤ → Session
unfolding promote
try_complete cfg s now =
    let u = pending_user s.conn now in
    if registered s.conn
    then s
    else if not (is_ready s.conn.pending)
    then s
    else if not (password_ok cfg s.conn.pending)
    then bad_password s
    else promote s u (add_user s.site.world u now)
