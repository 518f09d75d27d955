-- ===== src/Tests/Peers.antt =====
-- The theorems on what the messages of a peer and the handlers of the server do to users and
-- channels, at concrete inputs.
use ircat.Base.{
  ◌≡◌, refl, true, false, not, ◌&&◌, none, some, List, [], ◌∷◌, ◌++◌, arith, all, Bytes, codes,
  bytes_eq, nat_eq, bytes_has_eq,
}
use ircat.Base.GoMap.{get, put, Distinct}
use ircat.Base.Int.{pos}
use ircat.Protocol.Message.{Message}
use ircat.Protocol.Text.{cut}
use ircat.State.Casemap.{rfc1459, fold}
use ircat.Server.Quit.{close_conn}
use ircat.Server.Channels.{pass_invite_only}
use ircat.Server.Channels.Commands.{InviteOutcome, handle_join, handle_invite}
use ircat.Server.Channels.Commands.Leaving.{join_zero_leaves}
use ircat.Server.Channels.Commands.Invited.{invited_passes}
use ircat.Server.Quit.Clean.{closed_is_gone}
use ircat.State.Membership.{is_op, member_op}
use ircat.State.Channel.{
  membership, Channel, is_member, add_membership, new_channel, add_member, founder_flag,
}
use ircat.State.Channel.Modes.{set_bool_mode, bool_mode_ptr, set_limit, set_key}
use ircat.State.Channel.Masks.{add_ban, add_invite}
use ircat.State.World.{
  find_channel, World, User, new_world, find_by_nick, find_by_id, add_user, join_channel,
  ensure_channel, enter,
}
use ircat.State.World.Users.Reach.{Reach, add, join, next}
use ircat.Server.Atoi.{atoi}
use ircat.Server.Modes.{apply_channel_modes}
use ircat.Server.Federation.{
  squit_seen_recently, deliver_per_user_channels, sender_nick_from_prefix, unexpired,
}
use ircat.Server.Federation.Forward.{handle_squit}
use ircat.Server.Federation.Squit.{stays, Unseen, handle_squit_users}
use ircat.Server.Federation.Squit.Repeated.{handle_squit_again}
use ircat.Server.Federation.Recipients.{sent_to, elsewhere, heard_of, deliver_per_user_once}
use ircat.Federation.Link.{message}
use ircat.Federation.Modes.{remote_kind, apply_remote_channel_mode}
use ircat.Federation.Modes.Mirror.{is_federated, forwarded_mode}
use ircat.Federation.Nick.{sender_from_prefix}
use ircat.Tests.Worlds.{ann, world_2, world_3, user_named, reached_2, bob, reached_3}
use ircat.Tests.Channels.{lounge}
use ircat.Tests.Links.{site_of}

-- a remote user in the channel of Ann
abbrev far_cat : User
far_cat = record (user_named (codes "Cat")) { home_server = codes "b.x" }

abbrev world_4 : World
world_4 = (join_channel (add_user world_3 far_cat (pos 8)).0 3 (codes "#go") (pos 9)).0

last_id_3 : world_3.last_id ≡ 2
unfolding join_channel ensure_channel enter add_member new_channel founder_flag add_user get put
    fold bytes_eq
last_id_3 = refl

reached_4 : Reach (new_world rfc1459 0) world_4
reached_4 =
    next (next reached_3 (add far_cat (pos 8) (omega (arith, last_id_3))))
      (join 3 (codes "#go") (pos 9))

abbrev cat : User
cat = record far_cat { id = 3; connect_at = some (pos 8) }

abbrev cat_quits : Message
cat_quits = message (codes "Cat!u@h") (codes "QUIT") (codes "bye" ∷ [])

cat_found : find_by_nick world_4 (sender_from_prefix (codes "Cat!u@h")) ≡ some cat
unfolding cut find_by_nick sender_from_prefix join_channel ensure_channel enter add_member
    new_channel founder_flag add_user get put fold bytes_eq
cat_found = refl

abbrev changes : List Bytes
changes = codes "+mo-k+lb" ∷ codes "BOB" ∷ codes "20" ∷ codes "*!*@x" ∷ []

changes_federated :
    all is_federated (apply_channel_modes world_2 (pos 9) lounge changes).changes ≡ true
unfolding all apply_channel_modes find_by_nick add_user get put fold bytes_eq remote_kind
    set_bool_mode bool_mode_ptr atoi add_ban set_limit set_key add_membership
changes_federated = refl

forwarded_mode_example :
    let done = apply_channel_modes world_2 (pos 9) lounge changes in
    apply_remote_channel_mode world_2 lounge (done.changes ∷ done.params) (pos 9) ≡ done.channel
forwarded_mode_example =
    forwarded_mode (pos 9) lounge (codes "+mo-k+lb") (codes "BOB" ∷ codes "20" ∷ codes "*!*@x" ∷ [])
      reached_2 changes_federated

-- A channel that a JOIN of a burst has created, with its member and the sender's timestamp.
abbrev joined_there : Channel
joined_there = record (new_channel (codes "#x") (pos 9)) {
  created_at = pos 7;
  members = (2, 0) ∷ [];
}

world_4-Distinct : Distinct world_4.by_id
unfolding join_channel ensure_channel enter add_member new_channel founder_flag add_user get put
    fold bytes_eq
world_4-Distinct = (refl, (refl, (refl, tt)))

b-Unseen : Unseen (site_of (codes "a.x") world_4) (codes "b.x") (codes "off") 5
unfolding squit_seen_recently get unexpired
b-Unseen = refl

handle_squit_users_example :
    let s' = handle_squit (site_of (codes "a.x") world_4) (codes "b.x") (codes "off") 5 (pos 9) in
    (find_by_id s'.world 3 ≡ stays (codes "b.x") (find_by_id world_4 3))
    × (s'.world.by_channel ≡ world_4.by_channel)
handle_squit_users_example =
    handle_squit_users (site_of (codes "a.x") world_4) (codes "b.x") (codes "off") 5 (pos 9) 3
      reached_4 world_4-Distinct refl b-Unseen

handle_squit_again_example :
    let s' = handle_squit (site_of (codes "a.x") world_4) (codes "b.x") (codes "off") 5 (pos 9) in
    let s'' = handle_squit s' (codes "b.x") (codes "off") 1000000000 (pos 10) in
    (s''.sent ≡ s'.sent) × (s''.world ≡ s'.world)
handle_squit_again_example =
    handle_squit_again (site_of (codes "a.x") world_4) (codes "b.x") (codes "off") 5 1000000000
      (pos 9) (pos 10) refl b-Unseen (omega arith)

cat_sender : find_by_nick world_4 (sender_nick_from_prefix (codes "Cat!u@h")) ≡ some cat
unfolding find_by_nick sender_nick_from_prefix join_channel ensure_channel enter add_member
    new_channel founder_flag add_user get put fold bytes_eq
cat_sender = refl

deliver_per_user_once_example :
    let s' = deliver_per_user_channels (site_of (codes "a.x") world_4) cat_quits in
    (sent_to 1 s'.sent ≡ sent_to 1 [] ++ heard_of world_4 cat cat_quits 1)
    × (elsewhere s'.sent ≡ elsewhere [])
deliver_per_user_once_example =
    deliver_per_user_once (site_of (codes "a.x") world_4) cat_quits cat 1 cat_sender

nameless_4 : get [] world_4.by_channel ≡ none
unfolding join_channel ensure_channel enter add_member new_channel founder_flag add_user get put
    fold bytes_eq
nameless_4 = refl

closed_is_gone_example :
    let s' = close_conn (site_of (codes "a.x") world_4) (some ann) (codes "bye") (pos 9) in
    (find_by_id s'.world 1 ≡ none)
    × ((k : Bytes) (ch : Channel) → get k s'.world.by_channel ≡ some ch → is_member ch 1 ≡ false)
closed_is_gone_example =
    closed_is_gone (site_of (codes "a.x") world_4) ann (codes "bye") (pos 9) reached_4 nameless_4

join_zero_leaves_example :
    let w' = (handle_join world_4 ann (pos 50) [] (pos 9) (codes "0" ∷ [])).0 in
    (w'.by_id ≡ world_4.by_id)
    × ((k : Bytes) (ch : Channel) → get k w'.by_channel ≡ some ch → is_member ch 1 ≡ false)
join_zero_leaves_example =
    join_zero_leaves world_4 ann (pos 50) [] (pos 9) reached_4 nameless_4 refl

abbrev go_4 : Channel
go_4 = record (new_channel (codes "#Go") (pos 7)) { members = (1, member_op) ∷ (3, 0) ∷ [] }

go_4_found : find_channel world_4 (codes "#GO") ≡ some go_4
unfolding find_channel join_channel ensure_channel enter add_member new_channel founder_flag
    add_user get put fold bytes_eq
go_4_found = refl

bob_4_found : find_by_nick world_4 (codes "BOB") ≡ some bob
unfolding find_by_nick join_channel ensure_channel enter add_member new_channel founder_flag
    add_user get put fold bytes_eq
bob_4_found = refl

bob_away : is_member go_4 2 ≡ false
unfolding get
bob_away = refl

ann_in : is_member go_4 1 ≡ true
unfolding get
ann_in = refl

open_to_all : (go_4.modes.invite_only && not (is_op (membership go_4 1))) ≡ false
unfolding new_channel
open_to_all = refl

invited_passes_example :
    let (w', o) = handle_invite world_4 ann (codes "BOB" ∷ codes "#GO" ∷ []) in
    (o ≡ InviteOutcome.invited 2 (codes "#GO"))
    × (find_channel w' (codes "#GO") ≡ some (add_invite go_4 2).0)
    × ((pass_invite_only world_4.mapping (add_invite go_4 2).0 bob).1 ≡ false)
invited_passes_example =
    invited_passes world_4 ann bob (codes "BOB") (codes "#GO") go_4 refl bob_4_found go_4_found
      ann_in bob_away open_to_all

-- A KILL of a user of this node, which ends that user's connection and nothing else here.
abbrev kills_ann : Message
kills_ann = message (codes "b.x") (codes "KILL") (codes "Ann" ∷ codes "off" ∷ [])
