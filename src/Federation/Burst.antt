-- ===== src/Federation/Burst.antt =====
-- `sendBurst` of internal/federation/federation.go: the lines that tell a peer of the users and
-- channels of this node. The sends are the messages in order; the map loops run in list order.
use ircat.Base.{
  ℕ, ◌+◌, Bool, false, ◌||◌, Option, none, some, List, [], ◌∷◌, ◌++◌, if◌then◌else◌, Bytes, codes,
}
use ircat.Base.GoMap.{GoMap}
use ircat.Base.Int.{ℤ, pos, negsuc}
use ircat.Protocol.Message.{Message}
use ircat.State.Membership.{is_op, is_voice}
use ircat.State.Channel.{UserId, Channel, Masks}
use ircat.State.Channel.Modes.{itoa_positive, mode_string}
use ircat.State.World.{World, User, is_empty, is_remote, hostmask, find_by_id}
use ircat.Server.Federation.{is_local, or_text, subscribe_peer_to_channel}
use ircat.Federation.Link.{Link, Node, message, send}

-- `strconv.FormatInt(n, 10)`
unfoldable pub format_int : ℤ → Bytes
format_int (pos n) = itoa_positive (pos n)
format_int (negsuc n) = b'-' ∷ itoa_positive (pos (n + 1))

-- The lines of the burst of a user of this node; `announceUserToFederation` sends the same ones.
unfoldable pub user_line : Bytes → User → Message
unfolding format_int
user_line me u =
    if u.service
    then message me (codes "SERVICE") (
        u.nick
        ∷ codes "1"
        ∷ or_text u.service_distribution (codes "*")
        ∷ u.service_type
        ∷ codes "1"
        ∷ u.realname
        ∷ [])
    else message me (codes "NICK") (
        u.nick
        ∷ codes "1"
        ∷ u.user
        ∷ u.host
        ∷ me
        ∷ (b'+' ∷ u.modes)
        ∷ format_int u.ts
        ∷ u.realname
        ∷ [])

unfoldable pub user_lines : Bytes → GoMap UserId User → List Message
unfolding user_line
user_lines me [] = []
user_lines me ((_, u) ∷ users) =
    if is_remote u then user_lines me users else user_line me u ∷ user_lines me users

-- one JOIN for each member that is a user of this node
abbrev pub join_line : Channel → Option User → List Message
join_line ch none = []
join_line ch (some u) =
    if is_remote u
    then []
    else message (hostmask u) (codes "JOIN") (ch.name ∷ format_int ch.created_at ∷ []) ∷ []

unfoldable pub join_lines : World → Channel → GoMap UserId ℕ → List Message
join_lines w ch [] = []
join_lines w ch ((id, _) ∷ ids) = join_line ch (find_by_id w id) ++ join_lines w ch ids

unfoldable pub topic_line : Bytes → Channel → List Message
topic_line me ch =
    if is_empty ch.topic then [] else message me (codes "TOPIC") (ch.name ∷ ch.topic ∷ []) ∷ []

abbrev pub mode_line : Bytes → Channel → Message
mode_line me ch =
    let (word, params) = mode_string ch in message me (codes "MODE") (ch.name ∷ word ∷ params)

unfoldable pub ban_lines : Bytes → Channel → Masks → List Message
ban_lines me ch [] = []
ban_lines me ch ((mask, _) ∷ m) =
    message me (codes "MODE") (ch.name ∷ codes "+b" ∷ mask ∷ []) ∷ ban_lines me ch m

abbrev pub flag_line : Bool → Bytes → Channel → Bytes → Bytes → List Message
flag_line on me ch word nick =
    if on then message me (codes "MODE") (ch.name ∷ word ∷ nick ∷ []) ∷ [] else []

abbrev pub flags_of : Bytes → Channel → ℕ → Option User → List Message
flags_of me ch m none = []
flags_of me ch m (some u) =
    if is_remote u
    then []
    else flag_line (is_op m) me ch (codes "+o") u.nick
      ++ flag_line (is_voice m) me ch (codes "+v") u.nick

unfoldable pub flag_lines : Bytes → World → Channel → GoMap UserId ℕ → List Message
flag_lines me w ch [] = []
flag_lines me w ch ((id, m) ∷ ids) = flags_of me ch m (find_by_id w id) ++ flag_lines me w ch ids

unfoldable pub has_local : World → GoMap UserId ℕ → Bool
has_local w [] = false
has_local w ((id, _) ∷ ids) = is_local w id || has_local w ids

-- the lines of a channel with a member of this node
unfoldable pub channel_lines : Bytes → World → Channel → List Message
unfolding join_lines topic_line ban_lines flag_lines
channel_lines me w ch =
    join_lines w ch ch.members
    ++ (topic_line me ch
        ++ (mode_line me ch ∷ (ban_lines me ch ch.bans ++ flag_lines me w ch ch.members)))

unfoldable pub send_each : Link → List Message → Link
send_each l [] = l
send_each l (msg ∷ msgs) = send_each (send l msg) msgs

-- A channel with no member of this node is left out.
unfoldable pub burst_channel : Node → Channel → Node
burst_channel n ch =
    if has_local n.site.world ch.members
    then record n {
      link = send_each n.link (channel_lines n.link.local_name n.site.world ch);
      site = subscribe_peer_to_channel n.site n.link.peer_name ch.name;
    }
    else n

unfoldable pub burst_channels : Node → GoMap Bytes Channel → Node
unfolding burst_channel
burst_channels n [] = n
burst_channels n ((_, ch) ∷ chs) = burst_channels (burst_channel n ch) chs

unfoldable pub send_burst : Node → Node
unfolding user_lines
send_burst n =
    let users = user_lines n.link.local_name n.site.world.by_id in
    burst_channels (record n { link = send_each n.link users }) n.site.world.by_channel
