-- ===== src/Server/Messages.antt =====
-- PRIVMSG and NOTICE: internal/server/handler_message.go. What the token bucket answers is an
-- argument.
pub mod Silent
pub mod Heard
pub mod Remote
use ircat.Base.{
  ℕ, suc, ◌+◌, Bool, true, false, not, ◌&&◌, Option, none, some, List, [], ◌∷◌, ◌++◌, map, leb,
  ◌==◌, if◌then◌else◌, any, Bytes, codes, bytes_eq, nat_eq, bytes_has_eq,
}
use ircat.Base.GoMap.{GoMap, has}
use ircat.Base.Int.{ℤ, pos, leb_ℤ}
use ircat.Protocol.Message.{Message}
use ircat.Protocol.Text.{split}
use ircat.State.Casemap.{fold}
use ircat.State.Glob.{glob_match}
use ircat.State.Membership.{is_op, is_voice}
use ircat.State.Channel.{UserId, Channel, is_member, membership}
use ircat.State.Channel.Masks.{matches_quiet}
use ircat.State.World.{
  World, User, is_empty, is_remote, is_safe_name, hostmask, find_by_id, find_by_nick, find_channel,
}
use ircat.Server.Channels.{resolve_safe_channel}
use ircat.Server.Modes.Handler.{is_channel_name}
use ircat.Server.Federation.{Site, Output, to_conn, to_user, push, or_text}
use ircat.Server.Federation.Forward.{forward_to_all_links, broadcast_to_channel_federated}
use ircat.Server.Registration.{Conn}
use ircat.Server.Registration.Commands.{is_space}

pub data MessageReply : Type 0 where
  not_registered no_recipient no_text excess_flood no_privileges : MessageReply
  no_such_nick cannot_send quieted : Bytes → MessageReply
  away : Bytes → Bytes → MessageReply
  echo : Message → MessageReply

-- A connection that talks, with what of the server it reads: the IDs that have a connection, for
-- `connFor`, and those that have a bot, for `botFor`. `violations` is `msgViolations`.
pub record Talk : Type 0 where
  pub conn : Conn
  pub violations : ℕ
  pub site : Site
  pub conns : GoMap UserId (Unit {0})
  pub bots : GoMap UserId (Unit {0})
  pub replies : List MessageReply

abbrev pub say : Talk → MessageReply → Talk
say t r = record t { replies = t.replies ++ r ∷ [] }

-- the replies that only PRIVMSG is sent
abbrev pub complain : Bool → Talk → MessageReply → Talk
complain emit t r = if emit then say t r else t

abbrev pub text_message : User → Bytes → Bytes → Bytes → Message
text_message u command target text = record {
  tags = [];
  prefix = hostmask u;
  command = command;
  params = target ∷ text ∷ [];
}

-- why a channel does not take a message of a user
unfoldable pub gag : World → Channel → User → Option MessageReply
gag w ch u =
    let mem = membership ch u.id in
    let plain = not (is_op mem) && not (is_voice mem) in
    if ch.modes.no_external && not (is_member ch u.id)
    then some (cannot_send ch.name)
    else if ch.modes.moderated && plain
    then some (cannot_send ch.name)
    else if plain && matches_quiet ch (hostmask u) (fold w.mapping)
    then some (quieted ch.name)
    else none

abbrev pub echoes : Talk → Bool
echoes t = has (codes "echo-message") t.conn.caps_accepted

abbrev pub to_channel_if : Talk → User → Channel → Bytes → Bytes → Bool → Option MessageReply → Talk
to_channel_if t u ch text command emit (some r) = complain emit t r
to_channel_if t u ch text command emit none = record t {
  site =
      broadcast_to_channel_federated t.site ch (text_message u command ch.name text) u.id
        (echoes t);
}

unfoldable pub to_channel : Talk → User → Channel → Bytes → Bytes → Bool → Talk
unfolding gag
to_channel t u ch text command emit = to_channel_if t u ch text command emit (gag t.site.world ch u)

abbrev pub find_resolved : World → Option Bytes → Option Channel
find_resolved w none = none
find_resolved w (some name) = find_channel w name

-- `fresh` is what `newSafeChannelID` returns
abbrev pub find_target : World → Bytes → Bytes → Option Channel
find_target w fresh target = elim (find_channel w target) [
  | some ch ↦ some ch
  | none ↦
      if is_safe_name target then find_resolved w (resolve_safe_channel w fresh target) else none
]

abbrev pub to_found : Talk → User → Bytes → Bytes → Bytes → Bool → Option Channel → Talk
to_found t u target text command emit none = complain emit t (no_such_nick target)
to_found t u target text command emit (some ch) = to_channel t u ch text command emit

-- `strings.TrimSpace`, by the ASCII spaces
unfoldable pub trim_space_left : Bytes → Bytes
trim_space_left [] = []
trim_space_left (c ∷ s) = if is_space c then trim_space_left s else c ∷ s

unfoldable pub trim_space_right : Bytes → Bytes
trim_space_right [] = []
trim_space_right (c ∷ s) =
    let rest = trim_space_right s in if is_space c && is_empty rest then [] else c ∷ rest

abbrev pub with_away : Talk → Bytes → User → Talk
with_away t command u =
    if bytes_eq command (codes "PRIVMSG") && not (is_empty u.away)
    then say t (away u.nick u.away)
    else t

-- what is handed to a connection or a bot, with the echo
abbrev pub hand_over : Talk → Output → Message → Talk
hand_over t out msg =
    let sent = record t { site = push t.site (out ∷ []) } in
    if echoes t then say sent (echo msg) else sent

abbrev pub to_nick_found : Talk → User → Bytes → Bytes → Bytes → Bool → Option User → Talk
to_nick_found t u target text command emit none = complain emit t (no_such_nick target)
to_nick_found t u target text command emit (some dest) =
    let t' = with_away t command dest in
    let msg = text_message u command dest.nick text in
    if has dest.id t'.conns
    then hand_over t' (to_conn dest.id msg) msg
    else if has dest.id t'.bots
    then hand_over t' (to_user dest.id msg) msg
    else complain emit t' (no_such_nick target)

unfoldable pub to_nick : Talk → User → Bytes → Bytes → Bytes → Bool → Talk
unfolding trim_space_left trim_space_right
to_nick t u target text command emit =
    let nick = trim_space_right (trim_space_left target) in
    to_nick_found t u nick text command emit (find_by_nick t.site.world nick)

-- `GlobMatchHost`, by the ASCII letters
abbrev pub lower : ℕ → ℕ
lower c = if leb b'A' c && leb c b'Z' then c + 32 else c

unfoldable pub glob_match_host : Bytes → Bytes → Bool
glob_match_host pattern s = glob_match (map lower pattern) (map lower s)

abbrev pub candidate : Site → Bool → User → Bytes
candidate s host_mask u = if host_mask then u.host else or_text u.home_server s.name

-- the loop over `Snapshot`
unfoldable pub to_matching : Site → Bytes → Bool → Message → GoMap UserId User → List Output
unfolding glob_match_host
to_matching s mask host_mask msg [] = []
to_matching s mask host_mask msg ((id, u) ∷ users) =
    if is_remote u
    then to_matching s mask host_mask msg users
    else if not (glob_match_host mask (candidate s host_mask u))
    then to_matching s mask host_mask msg users
    else to_conn u.id msg ∷ to_matching s mask host_mask msg users

unfoldable pub deliver_mask_broadcast : Talk → User → Bytes → Bytes → Bytes → Bool → Bool → Talk
unfolding to_matching
deliver_mask_broadcast t u mask text command host_mask emit =
    let prefix = if host_mask then b'#' else b'$' in
    let msg = text_message u command (prefix ∷ mask) text in
    let s = push t.site (to_matching t.site mask host_mask msg t.site.world.by_id) in
    if not (any (λ c. c == b'o') u.modes)
    then complain emit t no_privileges
    else record t { site = forward_to_all_links s msg }

abbrev pub to_name : Talk → User → Bytes → Bytes → Bytes → Bytes → Bool → Talk
to_name t u fresh target text command emit =
    if is_channel_name target
    then to_found t u target text command emit (find_target t.site.world fresh target)
    else to_nick t u target text command emit

unfoldable pub deliver_one_target : Talk → User → Bytes → Bytes → Bytes → Bytes → Bool → Talk
unfolding deliver_mask_broadcast to_channel to_nick
deliver_one_target t u fresh [] text command emit = to_name t u fresh [] text command emit
deliver_one_target t u fresh (c ∷ mask) text command emit =
    if not (is_empty mask) && c == b'$'
    then deliver_mask_broadcast t u mask text command false emit
    else if not (is_empty mask) && c == b'#' && any (λ b. b == b'.') mask
    then deliver_mask_broadcast t u mask text command true emit
    else to_name t u fresh (c ∷ mask) text command emit

unfoldable pub deliver_targets : Talk → User → Bytes → List Bytes → Bytes → Bytes → Bool → Talk
deliver_targets t u fresh [] text command emit = t
deliver_targets t u fresh (target ∷ targets) text command emit =
    deliver_targets (deliver_one_target t u fresh target text command emit) u fresh targets text
      command emit

-- an empty bucket
abbrev pub flooded : ℤ → Talk → Talk
flooded limit t =
    let t' = record t { violations = suc t.violations } in
    if leb_ℤ limit (pos t'.violations)
    then say (record t' { conn = record t'.conn { cancelled = true } }) excess_flood
    else t'

abbrev pub deliver_text : Talk → User → ℤ → Bool → Bytes → Bytes → Bytes → Bytes → Bool → Talk
deliver_text t u limit taken fresh targets text command emit =
    if not taken
    then flooded limit t
    else deliver_targets t u fresh (split b',' targets) text command emit

unfoldable pub deliver_params : Talk → User → ℤ → Bool → Bytes → List Bytes → Bytes → Bool → Talk
unfolding deliver_targets
deliver_params t u limit taken fresh [] command emit = complain emit t no_recipient
deliver_params t u limit taken fresh (targets ∷ []) command emit =
    complain emit t (if is_empty targets then no_recipient else no_text)
deliver_params t u limit taken fresh (targets ∷ text ∷ _) command emit =
    if is_empty targets
    then complain emit t no_recipient
    else if is_empty text
    then complain emit t no_text
    else deliver_text t u limit taken fresh targets text command emit

abbrev pub deliver_as_user :
    Talk → ℤ → Bool → Bytes → List Bytes → Bytes → Bool → Option User → Talk
deliver_as_user t limit taken fresh params command emit none = t
deliver_as_user t limit taken fresh params command emit (some u) =
    deliver_params t u limit taken fresh params command emit

abbrev pub deliver_as_conn :
    Talk → ℤ → Bool → Bytes → List Bytes → Bytes → Bool → Option UserId → Talk
deliver_as_conn t limit taken fresh params command emit none = complain emit t not_registered
deliver_as_conn t limit taken fresh params command emit (some id) =
    deliver_as_user t limit taken fresh params command emit (find_by_id t.site.world id)

-- `deliverMessage` of a connection
unfoldable pub deliver_conn_message : Talk → ℤ → Bool → Bytes → Message → Bytes → Bool → Talk
unfolding deliver_params
deliver_conn_message t limit taken fresh m command emit =
    deliver_as_conn t limit taken fresh m.params command emit t.conn.user

unfoldable pub handle_privmsg : Talk → ℤ → Bool → Bytes → Message → Talk
unfolding deliver_conn_message
handle_privmsg t limit taken fresh m =
    deliver_conn_message t limit taken fresh m (codes "PRIVMSG") true

unfoldable pub handle_notice : Talk → ℤ → Bool → Bytes → Message → Talk
unfolding deliver_conn_message
handle_notice t limit taken fresh m =
    deliver_conn_message t limit taken fresh m (codes "NOTICE") false
