-- ===== src/Tests/Messages.antt =====
-- The theorems on messages between users, and on the rings of log entries.
use ircat.Server.Modes.Handler.{is_channel_name}
use ircat.Base.{
  ◌≡◌, refl, true, false, none, some, List, [], ◌∷◌, ◌++◌, arith, length, all, Bytes, codes,
  bytes_eq, nat_eq, bytes_has_eq,
}
use ircat.Base.GoMap.{get, put}
use ircat.Base.Int.{pos}
use ircat.Protocol.Message.{Message}
use ircat.State.Casemap.{rfc1459, fold}
use ircat.State.Membership.{member_op}
use ircat.State.Channel.{Channel, no_modes}
use ircat.State.Whowas.{new_whowas}
use ircat.State.World.{World, User, find_by_nick, add_user}
use ircat.Server.Registration.Commands.{is_space}
use ircat.Server.Federation.Recipients.{sent_to, elsewhere}
use ircat.Server.Messages.{
  Talk, text_message, deliver_targets, handle_notice, trim_space_left, trim_space_right,
}
use ircat.Server.Messages.Silent.{complaints, notice_silent}
use ircat.Server.Messages.Remote.{is_nick_form, texts_for, nicks_heard}
use ircat.Logging.Ring.{new_ring, new_ring_buffer, new_bot_log_ring, append, since, bot_since}
use ircat.Logging.Ring.Holds.{capacity_of, drop, numbered, append_all}
use ircat.Logging.Ring.Tail.{passed, since-append_all}
use ircat.Tests.Worlds.{world_2, user_named, ann}

-- Ann talks, with echoes negotiated.
abbrev talk_in : World → Talk
talk_in w = record {
  conn = record {
    pending = record {
      nick = [];
      user = [];
      realname = [];
      password = [];
      pass_version = [];
      pass_flags = [];
      nick_set = true;
      user_set = true;
      cap_negotiating = false;
      cap_ended = false;
      account = [];
    };
    user = some 1;
    remote_host = codes "h";
    caps_accepted = (codes "echo-message", tt) ∷ [];
    cancelled = false;
  };
  violations = 0;
  site = record {
    name = codes "a.x";
    broadcast_mode = [];
    world = w;
    whowas = new_whowas (pos 2) rfc1459;
    links = (codes "b.x", tt) ∷ [];
    subs = (codes "b.x", (codes "#go", tt) ∷ []) ∷ [];
    squit_seen = [];
    sent = [];
  };
  conns = (1, tt) ∷ (2, tt) ∷ [];
  bots = [];
  replies = [];
}

-- a channel where a quiet mask covers everyone
abbrev hushed : Channel
hushed = record {
  name = codes "#go";
  created_at = pos 7;
  topic = [];
  topic_set_by = [];
  topic_set_at = none;
  key = [];
  limit = pos 0;
  modes = no_modes;
  members = (1, member_op) ∷ (2, 0) ∷ [];
  bans = [];
  exceptions = [];
  invexes = [];
  quiets = (codes "*!*@*", pos 8) ∷ [];
  invites = [];
}

abbrev notice : Message
notice = record {
  tags = [];
  prefix = [];
  command = codes "NOTICE";
  params = codes "Bob,nobody,#none,$*.x" ∷ codes "hi" ∷ [];
}

notice_silent_example :
    complaints (handle_notice (talk_in world_2) (pos 5) true [] notice)
    ≡ complaints (talk_in world_2)
notice_silent_example = notice_silent (talk_in world_2) (pos 5) [] notice

abbrev far_cat : User
far_cat = record (user_named (codes "Cat")) { home_server = codes "b.x" }

abbrev world_far : World
world_far = (add_user world_2 far_cat (pos 8)).0

abbrev cat : User
cat = record far_cat { id = 3; connect_at = some (pos 8) }

-- Bob by two spellings, and Cat, who is on another node.
abbrev nicks : List Bytes
nicks = codes "Bob" ∷ codes " cat" ∷ codes "BOB" ∷ []

nicks_nick_form : all is_nick_form nicks ≡ true
unfolding all is_channel_name
nicks_nick_form = refl

nicks_heard_example :
    let t = talk_in world_far in
    let t' = deliver_targets t ann [] nicks (codes "hi") (codes "PRIVMSG") true in
    (sent_to 2 t'.site.sent
      ≡ sent_to 2 [] ++ texts_for ann (codes "hi") (codes "PRIVMSG") t 2 nicks)
    × (elsewhere t'.site.sent ≡ elsewhere [])
nicks_heard_example =
    nicks_heard ann (codes "hi") (codes "PRIVMSG") true 2 [] (talk_in world_far) nicks
      nicks_nick_form

-- Bob is handed both texts, and Cat none.
nicks_test :
    let t = talk_in world_far in
    let m = text_message ann (codes "PRIVMSG") (codes "Bob") (codes "hi") in
    (texts_for ann (codes "hi") (codes "PRIVMSG") t 2 nicks ≡ m ∷ m ∷ [])
    × (texts_for ann (codes "hi") (codes "PRIVMSG") t 3 nicks ≡ [])
unfolding texts_for find_by_nick add_user get put fold bytes_eq trim_space_left trim_space_right
    is_space
nicks_test = (refl, refl)

abbrev lines : List Bytes
lines = codes "a" ∷ codes "b" ∷ codes "c" ∷ codes "d" ∷ []

since-append_all_example :
    let ring = append_all (new_ring (pos 3) 1000 (0, [])) lines in
    let m = passed (capacity_of (pos 3) 1000) (length lines) 2 in
    (since ring 2 ≡ some (numbered m (drop m lines)))
    × (bot_since ring 2 ≡ some (numbered m (drop m lines)))
since-append_all_example = since-append_all (pos 3) 1000 (0, []) lines 2 (omega arith)

since_test :
    since (append_all (new_ring_buffer (pos 3) (0, [])) lines) 0
    ≡ some ((2, codes "b") ∷ (3, codes "c") ∷ (4, codes "d") ∷ [])
unfolding append_all new_ring append since
since_test = refl

bot_since_test :
    bot_since (append_all (new_bot_log_ring (pos 3) (0, [])) lines) 3 ≡ some ((4, codes "d") ∷ [])
unfolding append_all new_ring append bot_since
bot_since_test = refl
