-- ===== src/Tests/Registration.antt =====
-- The theorems on the registration of a connection.
use ircat.Base.{
  ◌≡◌, refl, true, false, none, some, [], ◌∷◌, if◌then◌else◌, is_some, codes, bytes_eq, nat_eq,
  bytes_has_eq,
}
use ircat.Base.GoMap.{get, put}
use ircat.Base.Int.{pos}
use ircat.Protocol.Message.{Message}
use ircat.State.Casemap.{rfc1459, fold}
use ircat.State.Whowas.{new_whowas}
use ircat.State.World.{find_by_nick, next_id, add_user}
use ircat.State.World.Users.Added.{entered}
use ircat.Server.Registration.{Session, Config, valid_nickname, pending_user, try_complete}
use ircat.Server.Registration.Commands.{handle_nick, handle_user}
use ircat.Server.Registration.Complete.{admitted, try_complete_lem}
use ircat.Server.Registration.Caps.{handle_cap}
use ircat.Server.Registration.Caps.Supported.{AllSupported, handle_cap-AllSupported}
use ircat.Server.Registration.Lifecycle.{
  nick_line, user_line, cap_end, nick_user_commute, registration_completes,
}
use ircat.Tests.Worlds.{world_2, reached_2}

abbrev config : Config
config = record { nick_length = pos 9; client_password = codes "pw" }

abbrev session : Session
session = record {
  conn = record {
    pending = record {
      nick = [];
      user = [];
      realname = [];
      password = codes "pw";
      pass_version = [];
      pass_flags = [];
      nick_set = false;
      user_set = false;
      cap_negotiating = true;
      cap_ended = false;
      account = [];
    };
    user = none;
    remote_host = codes "h";
    caps_accepted = [];
    cancelled = false;
  };
  site = record {
    name = codes "a.x";
    broadcast_mode = [];
    world = world_2;
    whowas = new_whowas (pos 2) rfc1459;
    links = [];
    subs = [];
    squit_seen = [];
    sent = [];
  };
  replies = [];
}

-- NICK and USER have come, and CAP END has come too
abbrev complete : Session
complete = record session {
  conn = record session.conn {
    pending = record session.conn.pending {
      nick = codes "Cat";
      user = codes "c";
      nick_set = true;
      user_set = true;
      cap_ended = true;
    };
  };
}

try_complete_lem_example :
    let s' = try_complete config complete (pos 9) in
    (s'.conn.user ≡ (if admitted config complete then some (next_id world_2) else none))
    × (find_by_nick s'.site.world (codes "Cat") ≡ (
        if admitted config complete
        then some (entered world_2 (pending_user complete.conn (pos 9)) (pos 9))
        else find_by_nick world_2 (codes "Cat")))
try_complete_lem_example = try_complete_lem config complete (pos 9) reached_2 refl refl

cat-valid : valid_nickname (codes "Cat") (pos 9) ≡ true
unfolding valid_nickname
cat-valid = refl

cat_is_free : find_by_nick world_2 (codes "Cat") ≡ none
unfolding find_by_nick add_user get put fold bytes_eq
cat_is_free = refl

nick_user_commute_example :
    let n = nick_line (codes "Cat") in
    let u = user_line (codes "c") (codes "0") (codes "*") (codes "C. At") in
    handle_user config (handle_nick config session n (pos 9)) u (pos 9)
    ≡ handle_nick config (handle_user config session u (pos 9)) n (pos 9)
nick_user_commute_example =
    nick_user_commute config session (codes "Cat") (codes "c") (codes "0") (codes "*")
      (codes "C. At") (pos 9) cat-valid refl refl refl

registration_completes_example :
    let a = handle_nick config session (nick_line (codes "Cat")) (pos 9) in
    let b =
      handle_user config a
        (user_line (codes "c") (codes "0") (codes "*") (codes "C. At"))
        (pos 9) in
    let c = handle_cap config b cap_end (pos 9) in
    (is_some c.conn.user ≡ true) × (is_some (find_by_nick c.site.world (codes "Cat")) ≡ true)
unfolding bytes_eq
registration_completes_example =
    registration_completes config session (codes "Cat") (codes "c") (codes "0") (codes "*")
      (codes "C. At") (pos 9) reached_2 refl cat-valid cat_is_free refl

abbrev request : Message
request = record {
  tags = [];
  prefix = [];
  command = codes "CAP";
  params = codes "REQ" ∷ codes "sasl -server-time" ∷ [];
}

none_accepted : AllSupported session.conn.caps_accepted
unfolding get
none_accepted name h = cc

handle_cap-AllSupported_example :
    AllSupported (handle_cap config session request (pos 9)).conn.caps_accepted
handle_cap-AllSupported_example =
    handle_cap-AllSupported config session request (pos 9) none_accepted
