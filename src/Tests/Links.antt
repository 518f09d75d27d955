-- ===== src/Tests/Links.antt =====
-- The theorems on links and on what a peer tells.
use ircat.Base.{
  ◌+◌, ◌^◌, ◌<◌, ◌≡◌, refl, true, false, none, some, List, [], ◌∷◌, arith, Bytes, codes, bytes_eq,
  nat_eq, bytes_has_eq,
}
use ircat.Base.GoMap.{get, put}
use ircat.Base.Int.{pos}
use ircat.State.Casemap.{rfc1459, fold}
use ircat.State.Whowas.{new_whowas}
use ircat.State.World.{World, User, new_world, find_by_nick, add_user}
use ircat.State.World.Users.Reach.{Reach, add, here, next}
use ircat.Server.Atoi.{atoi}
use ircat.Server.Federation.{Site}
use ircat.Federation.Link.{LinkConfig, Node, is_active, new_link, send, svinfo_accepted, go_active}
use ircat.Federation.Burst.{user_line, send_burst}
use ircat.Federation.Nick.{Incoming, announce, handle_remote_nick, kill_message, ts_lost}
use ircat.Federation.Nick.Collision.{winner, answer, stored, announce_lem}
use ircat.Federation.Nick.Announced.{told}
use ircat.Federation.Nick.Split.{Rivals, collision_splits}
use ircat.Federation.Remote.{handle_remote_kill}
use ircat.Federation.Link.{close}
use ircat.Federation.Dispatch.{
  Turn, take_turn, Clocks, LinkCommand, link_command, handle_svinfo, handle_as, dispatch, run,
}
use ircat.Federation.Dispatch.Handshake.{
  expected_name, server_line, svinfo_line, active_without_pass,
}
use ircat.Federation.Dispatch.Handshake.Activation.{activated_by_svinfo}
use ircat.Tests.Worlds.{world_0, world_2, user_named, reached_2, bob}

abbrev pub site_of : Bytes → World → Site
site_of name w = record {
  name = name;
  broadcast_mode = [];
  world = w;
  whowas = new_whowas (pos 2) rfc1459;
  links = (codes "b.x", tt) ∷ (codes "c.x", tt) ∷ [];
  subs = [];
  squit_seen = [];
  sent = [];
}

abbrev pub to_b : LinkConfig
to_b = record {
  peer_name = codes "b.x";
  password_in = codes "secret";
  password_out = codes "hidden";
  description = [];
  version = codes "1";
}

abbrev pub node_of : Bytes → World → Node
node_of name w = record { link = new_link (site_of name w) to_b; site = site_of name w }

abbrev pub clocks : Clocks
clocks = record { time = 1700000000000000000; mono = 5 }

abbrev version_6 : List Bytes
version_6 = codes "6" ∷ codes "6" ∷ codes "0" ∷ codes "1700000000" ∷ []

version_6_accepted : svinfo_accepted version_6 ≡ true
unfolding svinfo_accepted atoi
version_6_accepted = refl

b_expected : expected_name (node_of (codes "a.x") world_0).link (codes "b.x") ≡ true
unfolding new_link bytes_eq
b_expected = refl

active_without_pass_example :
    let r =
      run
        (record { node = node_of (codes "a.x") world_0; returned = false })
        (Turn.received (server_line [] (codes "b.x") []) clocks
          ∷ Turn.received (svinfo_line [] version_6) clocks
          ∷ []) in
    (is_active r.node.link.state ≡ true)
    × (r.node.link.peer_name ≡ codes "b.x")
    × (r.returned ≡ false)
active_without_pass_example =
    active_without_pass (node_of (codes "a.x") world_0) [] [] (codes "b.x") [] version_6 clocks
      clocks b_expected version_6_accepted

-- After the end of the peer's messages Run returns, and what it has not read is not read.
ended_test :
    let r =
      run
        (record { node = node_of (codes "a.x") world_0; returned = false })
        (Turn.ended ∷ Turn.closing ∷ Turn.received (server_line [] (codes "b.x") []) clocks ∷ []) in
    (r.returned ≡ true) × (r.node.link.peer_name ≡ [])
unfolding run take_turn new_link close
ended_test = (refl, refl)

still_handshaking : is_active (node_of (codes "a.x") world_0).link.state ≡ false
unfolding new_link
still_handshaking = refl

svinfo_activates :
    is_active
      (dispatch (node_of (codes "a.x") world_0) (svinfo_line [] version_6) clocks).link.state
    ≡ true
unfolding dispatch handle_as link_command bytes_eq new_link handle_svinfo go_active send_burst
    svinfo_accepted atoi
svinfo_activates = refl

activated_by_svinfo_example :
    (link_command (codes "SVINFO") ≡ LinkCommand.svinfo) × (svinfo_accepted version_6 ≡ true)
activated_by_svinfo_example =
    activated_by_svinfo (node_of (codes "a.x") world_0) (svinfo_line [] version_6) clocks
      still_handshaking svinfo_activates

-- a younger user of a nick that is held
abbrev young_bob : Incoming
young_bob = record {
  nick = codes "BOB";
  user = codes "v";
  host = codes "k";
  server = codes "b.x";
  modes = [];
  ts = pos 2;
  realname = [];
}

room_2 : world_2.last_id + 1 < 2 ^ 64
unfolding add_user get put fold bytes_eq
room_2 = omega arith

announce_lem_example :
    let n = node_of (codes "a.x") world_2 in
    let n' = announce n young_bob (pos 9) in
    let holder = find_by_nick world_2 (codes "BOB") in
    (find_by_nick n'.site.world (codes "BOB") ≡ winner world_2 young_bob (pos 9) holder)
    × ((other : Bytes)
        → bytes_eq (fold world_2.mapping (codes "BOB")) (fold world_2.mapping other) ≡ false
        → find_by_nick n'.site.world other ≡ find_by_nick world_2 other)
    × (n'.link ≡ answer n.link young_bob holder)
announce_lem_example =
    announce_lem (node_of (codes "a.x") world_2) young_bob (pos 9) reached_2 refl room_2

-- a node whose user of that nick is younger
abbrev late_bob : User
late_bob = record (user_named (codes "Bob")) { ts = pos 2 }

abbrev world_b : World
world_b = (add_user world_0 late_bob (pos 7)).0

reached_b : Reach (new_world rfc1459 0) world_b
reached_b = next here (add late_bob (pos 7) (omega arith))

abbrev stored_bob : User
stored_bob = record late_bob { id = 1; connect_at = some (pos 7) }

rival_bobs :
    Rivals
      (node_of (codes "a.x") world_2)
      (node_of (codes "b.x") world_b)
      (codes "a.x")
      bob
      stored_bob
      1
      2
unfolding find_by_nick add_user get put fold bytes_eq
rival_bobs = record {
  room_a = omega arith;
  room_b = omega arith;
  named = refl;
  full = refl;
  same = refl;
  plain_x = refl;
  plain_y = refl;
  ts_x = refl;
  ts_y = refl;
  stamped = omega arith;
  older = omega arith;
  small = omega arith;
  at_a = refl;
  at_b = refl;
}

collision_splits_example :
    let a = node_of (codes "a.x") world_2 in
    let b = node_of (codes "b.x") world_b in
    let a' = handle_remote_nick a (user_line (codes "b.x") stored_bob) (pos 9) in
    let b' = handle_remote_nick b (user_line (codes "a.x") bob) (pos 9) in
    let kill = kill_message a.link.local_name (codes "Bob") ts_lost in
    (a'.link ≡ send a.link kill)
    × (find_by_nick a'.site.world (codes "Bob") ≡ some bob)
    × (find_by_nick b'.site.world (codes "Bob")
        ≡ some (stored world_b (told (codes "a.x") bob) (pos 9)))
    × (find_by_nick (handle_remote_kill b'.site kill).world (codes "Bob") ≡ none)
collision_splits_example =
    collision_splits (node_of (codes "a.x") world_2) (node_of (codes "b.x") world_b) (codes "a.x")
      (codes "b.x") bob stored_bob (pos 9) 1 2 reached_2 reached_b rival_bobs
