-- ===== src/Server/Channels/Commands.antt =====
-- The commands JOIN, PART, KICK, INVITE and TOPIC of internal/server/handler_channels.go, with the
-- lists that the first three take. The outcomes stand for what is sent, in order.
pub mod Leaving
pub mod Invited
use ircat.Base.{
  not, ◌&&◌, Option, none, some, List, [], ◌∷◌, ltb, ◌==◌, if◌then◌else◌, length, take, Bytes,
  codes, bytes_eq, nat_eq, bytes_has_eq,
}
use ircat.Base.Int.{ℤ, pos, negsuc}
use ircat.Protocol.Text.{split}
use ircat.State.Membership.{is_op}
use ircat.State.Channel.{UserId, Channel, is_member, membership, set_topic}
use ircat.State.Channel.Masks.{add_invite}
use ircat.State.World.{
  World, User, is_empty, hostmask, find_by_nick, find_channel, store_channel, user_channels,
}
use ircat.Server.Channels.{JoinOutcome, PartOutcome, join_one, part_one, kick_one}

pub data CommandOutcome : Type 0 where
  not_registered need_more_params : CommandOutcome
  joined : JoinOutcome → CommandOutcome
  parted kicked : PartOutcome → CommandOutcome

abbrev pub Ran : Type 0
Ran = World × List CommandOutcome

-- an outcome before what comes later
abbrev pub then_run : CommandOutcome → Ran → Ran
then_run o (w, os) = (w, o ∷ os)

-- the loop over the channels of the user, for `JOIN 0`
unfoldable pub part_all : World → User → List Channel → Ran
part_all w u [] = (w, [])
part_all w u (ch ∷ chs) =
    let (w', o) = part_one w u ch.name (codes "Left all channels") in
    then_run (CommandOutcome.parted o) (part_all w' u chs)

abbrev pub first_key : List Bytes → Bytes
first_key [] = []
first_key (k ∷ _) = k

abbrev pub other_keys : List Bytes → List Bytes
other_keys [] = []
other_keys (_ ∷ ks) = ks

-- the loop over names and keys; `fresh` has what `newSafeChannelID` returns in each round
unfoldable pub join_each : World → User → ℤ → List Bytes → ℤ → List Bytes → List Bytes → Ran
join_each w u max fresh now [] keys = (w, [])
join_each w u max fresh now (name ∷ names) keys =
    let (w', o) = join_one w u name (first_key keys) max (first_key fresh) now in
    then_run (CommandOutcome.joined o)
      (join_each w' u max (other_keys fresh) now names (other_keys keys))

abbrev pub keys_of : List Bytes → List Bytes
keys_of [] = []
keys_of (keys ∷ _) = split b',' keys

unfoldable pub join_params : World → User → ℤ → List Bytes → ℤ → List Bytes → Ran
unfolding part_all join_each
join_params w u max fresh now [] = (w, CommandOutcome.need_more_params ∷ [])
join_params w u max fresh now (target ∷ rest) =
    if bytes_eq target (codes "0")
    then part_all w u (user_channels w u.id)
    else join_each w u max fresh now (split b',' target) (keys_of rest)

unfoldable pub handle_join : World → User → ℤ → List Bytes → ℤ → List Bytes → Ran
unfolding join_params
handle_join w u max fresh now params =
    if not u.registered
    then (w, CommandOutcome.not_registered ∷ [])
    else join_params w u max fresh now params

unfoldable pub part_each : World → User → Bytes → List Bytes → Ran
part_each w u reason [] = (w, [])
part_each w u reason (name ∷ names) =
    let (w', o) = part_one w u name reason in
    then_run (CommandOutcome.parted o) (part_each w' u reason names)

-- the last parameter, where it is not the first
abbrev pub reason_from : List Bytes → Bytes
reason_from [] = []
reason_from (p ∷ []) = p
reason_from (_ ∷ p ∷ ps) = reason_from (p ∷ ps)

unfoldable pub handle_part : World → User → List Bytes → Ran
unfolding part_each
handle_part w u [] = (
  w,
  (if not u.registered then CommandOutcome.not_registered else CommandOutcome.need_more_params)
      ∷ [],
)
handle_part w u (names ∷ rest) =
    if not u.registered
    then (w, CommandOutcome.not_registered ∷ [])
    else part_each w u (reason_from rest) (split b',' names)

unfoldable pub kick_targets : World → User → Bytes → Bytes → List Bytes → Ran
kick_targets w u ch reason [] = (w, [])
kick_targets w u ch reason (t ∷ ts) =
    let (w', o) = kick_one w u ch t reason in
    then_run (CommandOutcome.kicked o) (kick_targets w' u ch reason ts)

unfoldable pub kick_pairs : World → User → Bytes → List Bytes → List Bytes → Ran
kick_pairs w u reason (ch ∷ chs) (t ∷ ts) =
    let (w', o) = kick_one w u ch t reason in
    then_run (CommandOutcome.kicked o) (kick_pairs w' u reason chs ts)
kick_pairs w u reason _ _ = (w, [])

abbrev pub kick_reason : User → List Bytes → Bytes
kick_reason u [] = u.nick
kick_reason u (reason ∷ _) = if is_empty reason then u.nick else reason

unfoldable pub kick_lists : World → User → Bytes → List Bytes → List Bytes → Ran
unfolding kick_targets kick_pairs
kick_lists w u reason (ch ∷ []) targets = kick_targets w u ch reason targets
kick_lists w u reason chs targets =
    if length chs == length targets
    then kick_pairs w u reason chs targets
    else (w, CommandOutcome.need_more_params ∷ [])

unfoldable pub kick_params : World → User → List Bytes → Ran
unfolding kick_lists
kick_params w u (chs ∷ targets ∷ rest) =
    kick_lists w u (kick_reason u rest) (split b',' chs) (split b',' targets)
kick_params w u _ = (w, CommandOutcome.need_more_params ∷ [])

unfoldable pub handle_kick : World → User → List Bytes → Ran
unfolding kick_params
handle_kick w u params =
    if not u.registered then (w, CommandOutcome.not_registered ∷ []) else kick_params w u params

-- INVITE, to the new world and what is told
pub data InviteOutcome : Type 0 where
  not_registered need_more_params no_such_nick not_on_channel user_on_channel : InviteOutcome
  not_operator : InviteOutcome
  invited : UserId → Bytes → InviteOutcome

abbrev pub invite_to : World → User → Bytes → User → Option Channel → World × InviteOutcome
invite_to w u name target none = (w, InviteOutcome.invited target.id name)
invite_to w u name target (some ch) =
    if not (is_member ch u.id)
    then (w, InviteOutcome.not_on_channel)
    else if is_member ch target.id
    then (w, InviteOutcome.user_on_channel)
    else if ch.modes.invite_only && not (is_op (membership ch u.id))
    then (w, InviteOutcome.not_operator)
    else (store_channel w name (add_invite ch target.id).0, InviteOutcome.invited target.id name)

abbrev pub invite_found : World → User → Bytes → Option User → World × InviteOutcome
invite_found w u name none = (w, InviteOutcome.no_such_nick)
invite_found w u name (some target) = invite_to w u name target (find_channel w name)

unfoldable pub handle_invite : World → User → List Bytes → World × InviteOutcome
handle_invite w u (nick ∷ name ∷ _) =
    if not u.registered
    then (w, InviteOutcome.not_registered)
    else invite_found w u name (find_by_nick w nick)
handle_invite w u _ =
    (w, if not u.registered then InviteOutcome.not_registered else InviteOutcome.need_more_params)

pub data TopicOutcome : Type 0 where
  not_registered need_more_params no_such_channel not_on_channel not_operator : TopicOutcome
  topic_state : Channel → TopicOutcome
  topic_set : Bytes → TopicOutcome

-- a topic cut to a limit that is positive
abbrev pub cut_topic : ℤ → Bytes → Bytes
cut_topic (negsuc _) text = text
cut_topic (pos n) text = if ltb 0 n && ltb n (length text) then take n text else text

abbrev pub topic_change :
    World → User → ℤ → Option ℤ → Bytes → Channel → Bytes → World × TopicOutcome
topic_change w u max now name ch text =
    if not (is_member ch u.id)
    then (w, TopicOutcome.not_on_channel)
    else if ch.modes.topic_locked && not (is_op (membership ch u.id))
    then (w, TopicOutcome.not_operator)
    else (
      store_channel w name (set_topic ch (cut_topic max text) (hostmask u) now),
      TopicOutcome.topic_set (cut_topic max text),
    )

abbrev pub topic_found :
    World → User → ℤ → Option ℤ → Bytes → List Bytes → Option Channel → World × TopicOutcome
topic_found w u max now name rest none = (w, TopicOutcome.no_such_channel)
topic_found w u max now name [] (some ch) = (w, TopicOutcome.topic_state ch)
topic_found w u max now name (text ∷ _) (some ch) = topic_change w u max now name ch text

unfoldable pub handle_topic : World → User → ℤ → Option ℤ → List Bytes → World × TopicOutcome
handle_topic w u max now [] =
    (w, if not u.registered then TopicOutcome.not_registered else TopicOutcome.need_more_params)
handle_topic w u max now (name ∷ rest) =
    if not u.registered
    then (w, TopicOutcome.not_registered)
    else topic_found w u max now name rest (find_channel w name)
