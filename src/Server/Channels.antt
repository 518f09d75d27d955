-- ===== src/Server/Channels.antt =====
-- JOIN, PART and KICK of internal/server/handler_channels.go, from one channel name on. A handler
-- is a function to the new world and an outcome, which says what numeric the client is sent or
-- which message is broadcast; the delivery itself is not modelled.
pub mod Policy
pub mod Commands
use ircat.Base.{
  ℕ, zero, suc, Bool, false, not, ◌&&◌, ◌||◌, Option, none, some, List, [], ◌∷◌, ◌++◌, ltb, leb,
  ◌==◌, if◌then◌else◌, length, take, all, any, Bytes, codes, bytes_eq, bytes_has_eq,
}
use ircat.Base.GoMap.{GoMap}
use ircat.Base.Int.{ℤ, pos, negsuc, leb_ℤ}
use ircat.State.Casemap.{CaseMapping, fold}
use ircat.State.Membership.{Membership, is_op}
use ircat.State.Channel.{Channel, is_member, member_count, membership}
use ircat.State.Channel.Modes.{nonempty, positive}
use ircat.State.Channel.Masks.{matches_ban, matches_exception, matches_invex, consume_invite}
use ircat.State.World.{
  World, User, Result, ok, err, hostmask, is_empty, is_safe_name, find_by_nick, find_channel,
  store_channel, join_channel, part_channel,
}

-- the bytes that end the loop of `validChannelName`
abbrev pub ends_name : ℕ → Bool
ends_name c = c == b' ' || c == b',' || c == 7 || c == b'\r' || c == b'\n' || c == 0

abbrev pub is_channel_prefix : ℕ → Bool
is_channel_prefix c = c == b'#' || c == b'&' || c == b'+' || c == b'!'

-- the length allowed, which a configuration may leave at 0
abbrev pub max_or_default : ℤ → ℕ
max_or_default (negsuc _) = 50
max_or_default (pos n) = if n == 0 then 50 else n

unfoldable pub valid_channel_name : Bytes → ℤ → Bool
unfolding any
valid_channel_name [] max = false
valid_channel_name (c ∷ s) max =
    if ltb (length (c ∷ s)) 2 || ltb (max_or_default max) (length (c ∷ s))
    then false
    else if not (is_channel_prefix c)
    then false
    else not (any ends_name s)

unfoldable pub is_safe_channel_id : Bytes → Bool
unfolding all
is_safe_channel_id s =
    if not (length s == 5)
    then false
    else all (λ c. leb b'A' c && leb c b'Z' || leb b'0' c && leb c b'9') s

abbrev pub drop : ℕ → Bytes → Bytes
drop zero s = s
drop (suc n) [] = []
drop (suc n) (c ∷ s) = drop n s

-- a safe channel whose name is a `!`, an ID and `rest`
abbrev pub has_suffix : Bytes → Channel → Bool
has_suffix rest ch =
    if not (is_safe_name ch.name) || leb (length ch.name) 6
    then false
    else bytes_eq (drop 6 ch.name) rest

-- the loop over `ChannelsSnapshot`
unfoldable pub find_suffix : Bytes → GoMap Bytes Channel → Option Bytes
find_suffix rest [] = none
find_suffix rest ((_, ch) ∷ m) = if has_suffix rest ch then some ch.name else find_suffix rest m

abbrev pub resolve_rest : World → Bytes → Option Bytes
resolve_rest w rest =
    if ltb 5 (length rest) && is_safe_channel_id (take 5 rest)
    then some (b'!' ∷ rest)
    else find_suffix rest w.by_channel

-- `resolveSafeChannel` on a name that begins with `!`; `fresh` is what `newSafeChannelID` returns
unfoldable pub resolve_safe_channel : World → Bytes → Bytes → Option Bytes
unfolding find_suffix is_safe_channel_id
resolve_safe_channel w fresh [] = none
resolve_safe_channel w fresh (_ ∷ []) = resolve_rest w []
resolve_safe_channel w fresh (_ ∷ c ∷ s) =
    if c == b'!'
    then (if is_empty s then none else some (b'!' ∷ (fresh ++ s)))
    else resolve_rest w (c ∷ s)

-- the letter that `checkJoinPolicy` returns
pub data JoinRefusal : Type 0 where
  invite_only bad_key full banned : JoinRefusal

-- the test of `+i`, which consumes an invite; the Boolean says that the door stays shut
unfoldable pub pass_invite_only : CaseMapping → Channel → User → Channel × Bool
pass_invite_only m c u =
    let (c', invited) = consume_invite c u.id in
    if not c.modes.invite_only
    then (c, false)
    else if matches_invex c (hostmask u) (fold m)
    then (c, false)
    else (c', not invited)

unfoldable pub other_refusal : CaseMapping → Channel → User → Bytes → Option JoinRefusal
other_refusal m c u key =
    if nonempty c.key && not (bytes_eq c.key key)
    then some JoinRefusal.bad_key
    else if positive c.limit && leb_ℤ c.limit (pos (member_count c))
    then some JoinRefusal.full
    else if matches_ban c (hostmask u) (fold m) && not (matches_exception c (hostmask u) (fold m))
    then some JoinRefusal.banned
    else none

unfoldable pub check_join_policy :
    CaseMapping → Channel → User → Bytes → Channel × Option JoinRefusal
unfolding pass_invite_only other_refusal
check_join_policy m c u key =
    let (c', shut) = pass_invite_only m c u in
    if shut then (c', some JoinRefusal.invite_only) else (c', other_refusal m c' u key)

pub data JoinOutcome : Type 0 where
  no_such_channel : Bytes → JoinOutcome
  refused : JoinRefusal → JoinOutcome
  unknown_user : JoinOutcome
  already_member : JoinOutcome
  entered : Membership → JoinOutcome

abbrev pub join_outcome : Result (Membership × Bool) → JoinOutcome
join_outcome (err _) = JoinOutcome.unknown_user
join_outcome (ok (mem, added)) =
    if added then JoinOutcome.entered mem else JoinOutcome.already_member

abbrev pub walk_in : World → User → Bytes → ℤ → World × JoinOutcome
walk_in w u name now = let (w', r) = join_channel w u.id name now in (w', join_outcome r)

-- behind `checkJoinPolicy`, which may have written to the channel
abbrev pub at_door : World → User → Bytes → ℤ → Channel × Option JoinRefusal → World × JoinOutcome
at_door w u name now (ch, some reason) = (store_channel w name ch, JoinOutcome.refused reason)
at_door w u name now (ch, none) = walk_in (store_channel w name ch) u name now

abbrev pub join_found : World → User → Bytes → Bytes → ℤ → Option Channel → World × JoinOutcome
join_found w u name key now none = walk_in w u name now
join_found w u name key now (some ch) = at_door w u name now (check_join_policy w.mapping ch u key)

unfoldable pub join_named : World → User → Bytes → Bytes → ℤ → World × JoinOutcome
unfolding check_join_policy
join_named w u name key now = join_found w u name key now (find_channel w name)

abbrev pub canonical_name : World → Bytes → Bytes → Option Bytes
canonical_name w fresh name =
    if is_safe_name name then resolve_safe_channel w fresh name else some name

unfoldable pub join_one : World → User → Bytes → Bytes → ℤ → Bytes → ℤ → World × JoinOutcome
unfolding join_named valid_channel_name resolve_safe_channel
join_one w u name key max fresh now =
    if not (valid_channel_name name max)
    then (w, JoinOutcome.no_such_channel name)
    else elim (canonical_name w fresh name) [
      | none ↦ (w, JoinOutcome.no_such_channel name)
      | some name' ↦ join_named w u name' key now
    ]

pub data PartOutcome : Type 0 where
  not_found not_on_channel not_operator target_not_on_channel : PartOutcome
  announced : Bytes → List Bytes → PartOutcome

unfoldable pub part_one : World → User → Bytes → Bytes → World × PartOutcome
part_one w u name reason = elim (find_channel w name) [
  | none ↦ (w, PartOutcome.not_found)
  | some ch ↦ if not (is_member ch u.id) then (w, PartOutcome.not_on_channel) else (
    (part_channel w u.id name).0,
    PartOutcome.announced (codes "PART")
        (if is_empty reason then ch.name ∷ [] else ch.name ∷ reason ∷ []),
  )
]

-- `kickOne` behind the tests of the one who kicks
abbrev pub kick_target : World → Channel → Bytes → Option User → World × PartOutcome
kick_target w ch reason none = (w, PartOutcome.target_not_on_channel)
kick_target w ch reason (some target) =
    if not (is_member ch target.id) then (w, PartOutcome.target_not_on_channel) else (
      (part_channel w target.id ch.name).0,
      PartOutcome.announced (codes "KICK") (ch.name ∷ target.nick ∷ reason ∷ []),
    )

unfoldable pub kick_one : World → User → Bytes → Bytes → Bytes → World × PartOutcome
kick_one w u name target reason = elim (find_channel w name) [
  | none ↦ (w, PartOutcome.not_found)
  | some ch ↦
      if not (is_member ch u.id)
      then (w, PartOutcome.not_on_channel)
      else if not (is_op (membership ch u.id))
      then (w, PartOutcome.not_operator)
      else kick_target w ch reason (find_by_nick w target)
]
