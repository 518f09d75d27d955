-- ===== src/State/World.antt =====
-- internal/state/world.go and user.go: the users and channels of one node, with their indexes.
-- A `*User` stands in both indexes; here it is the user's ID, and `by_id` holds the record, so
-- that a write through the pointer is seen through both. The counter behind `newUserID` is a
-- field. The mutex makes each method on users one step.
pub mod Users
pub mod Channels
pub mod Race
use ircat.Base.{
  ℕ, ◌+◌, ◌%◌, ◌^◌, Bool, true, false, not, ◌&&◌, Option, none, some, List, [], ◌∷◌, ◌++◌, map,
  ◌==◌, if◌then◌else◌, filterb, Bytes, codes, bytes_eq, nat_eq, bytes_has_eq,
}
use ircat.Base.GoMap.{GoMap, get, put, erase, has}
use ircat.Base.Int.{ℤ}
use ircat.State.Casemap.{CaseMapping, fold}
use ircat.State.Membership.{Membership, member_op, is_op}
use ircat.State.Channel.{
  UserId, Channel, new_channel, is_member, add_member, remove_member, add_membership,
}

pub record User : Type 0 where
  pub id : UserId
  pub nick : Bytes
  pub user : Bytes
  pub host : Bytes
  pub realname : Bytes
  pub modes : Bytes
  pub registered : Bool
  pub connect_at : Option ℤ
  pub home_server : Bytes
  pub ts : ℤ
  pub away : Bytes
  pub account : Bytes
  pub service : Bool
  pub service_type : Bytes
  pub service_distribution : Bytes

abbrev pub is_empty : Bytes → Bool
is_empty [] = true
is_empty (_ ∷ _) = false

unfoldable pub is_remote : User → Bool
is_remote u = not (is_empty u.home_server)

unfoldable pub hostmask : User → Bytes
hostmask u =
    let user : Bytes = if is_empty u.user then u.nick else u.user in
    let host : Bytes = if is_empty u.host then codes "unknown" else u.host in
    u.nick ++ (b'!' ∷ (user ++ (b'@' ∷ host)))

pub record World : Type 0 where
  pub mapping : CaseMapping
  pub by_nick : GoMap Bytes UserId
  pub by_id : GoMap UserId User
  pub by_channel : GoMap Bytes Channel
  pub last_id : ℕ

abbrev pub new_world : CaseMapping → ℕ → World
new_world mapping last_id = record {
  mapping = mapping;
  by_nick = [];
  by_id = [];
  by_channel = [];
  last_id = last_id;
}

pub data WorldError : Type 0 where
  empty_nick nick_in_use no_such_user no_such_channel : WorldError

pub data Result {ℓ} (A : Type ℓ) : Type ℓ where
  ok : A → Result A
  err : WorldError → Result A

unfoldable pub find_by_id : World → UserId → Option User
find_by_id w id = get id w.by_id

abbrev pub follow {ℓ} : {A : Type ℓ} → Option UserId → (UserId → Option A) → Option A
follow none f = none
follow (some id) f = f id

unfoldable pub find_by_nick : World → Bytes → Option User
find_by_nick w nick =
    if is_empty nick
    then none
    else follow (get (fold w.mapping nick) w.by_nick) (λ id. get id w.by_id)

-- `newUserID`: an atomic increment of a `uint64`
abbrev pub next_id : World → UserId
next_id w = (w.last_id + 1) % 2 ^ 64

abbrev pub or_now : Option ℤ → ℤ → Option ℤ
or_now none now = some now
or_now (some t) now = some t

unfoldable pub add_user : World → User → ℤ → World × Result UserId
add_user w u now =
    let key = fold w.mapping u.nick in
    let id = next_id w in
    let u' = record u { id = id; connect_at = or_now u.connect_at now } in
    if is_empty u.nick
    then (w, err empty_nick)
    else if has key w.by_nick
    then (w, err nick_in_use)
    else (
      record w { by_nick = put key id w.by_nick; by_id = put id u' w.by_id; last_id = id },
      ok id,
    )

unfoldable pub remove_user : World → UserId → World × Bool
remove_user w id = elim (get id w.by_id) [
  | none ↦ (w, false)
  | some u ↦ (
    record w { by_id = erase id w.by_id; by_nick = erase (fold w.mapping u.nick) w.by_nick },
    true,
  )
]

rename_found : World → UserId → User → Bytes → World × Result (Unit {0})
rename_found w id u new_nick =
    let old_key = fold w.mapping u.nick in
    let new_key = fold w.mapping new_nick in
    let renamed = put id (record u { nick = new_nick }) w.by_id in
    if bytes_eq old_key new_key
    then (record w { by_id = renamed }, ok tt)
    else if has new_key w.by_nick
    then (w, err nick_in_use)
    else (record w { by_id = renamed; by_nick = put new_key id (erase old_key w.by_nick) }, ok tt)

unfoldable pub rename_user : World → UserId → Bytes → World × Result (Unit {0})
unfolding rename_found
rename_user w id new_nick =
    if is_empty new_nick then (w, err empty_nick) else elim (get id w.by_id) [
      | none ↦ (w, err no_such_user)
      | some u ↦ rename_found w id u new_nick
    ]

unfoldable pub find_channel : World → Bytes → Option Channel
find_channel w name = if is_empty name then none else get (fold w.mapping name) w.by_channel

-- the world after `EnsureChannel`, the channel, and whether it is new
unfoldable pub ensure_channel : World → Bytes → ℤ → World × Channel × Bool
ensure_channel w name now =
    let key = fold w.mapping name in
    let fresh = new_channel name now in
    elim (get key w.by_channel) [
      | some ch ↦ (w, ch, false)
      | none ↦ (record w { by_channel = put key fresh w.by_channel }, fresh, true)
    ]

-- A write through the `*Channel` that the index holds under the name.
abbrev pub store_channel : World → Bytes → Channel → World
store_channel w name ch = record w { by_channel = put (fold w.mapping name) ch w.by_channel }

abbrev pub is_safe_name : Bytes → Bool
is_safe_name [] = false
is_safe_name (b ∷ _) = b == b'!'

abbrev pub no_members : Channel → Bool
no_members ch = elim ch.members [ [] ↦ true | _ ∷ _ ↦ false ]

-- `JoinChannel` behind its test of the user, on what `EnsureChannel` returned
unfoldable pub enter : Channel → UserId → Bytes → Bool → Channel × Membership × Bool
enter ch id name created =
    let resurrected = not created && no_members ch && is_safe_name name && ch.modes.server_reop in
    let (ch', mem, added) = add_member ch id created in
    if added && resurrected && not (is_op mem)
    then (let (ch'', mem', _) = add_membership ch' id member_op in (ch'', mem', added))
    else (ch', mem, added)

unfoldable pub join_channel : World → UserId → Bytes → ℤ → World × Result (Membership × Bool)
join_channel w id name now =
    if not (has id w.by_id)
    then (w, err no_such_user)
    else (let (w', ch, created) = ensure_channel w name now in
        let (ch', mem, added) = enter ch id name created in
        (store_channel w' name ch', ok (mem, added)))

unfoldable pub drop_channel : World → Bytes → World
drop_channel w name = record w { by_channel = erase (fold w.mapping name) w.by_channel }

-- `PartChannel` on the channel found; the result says whether the channel was dropped
unfoldable pub leave : World → Channel → UserId → Bytes → World × Result Bool
unfolding drop_channel
leave w ch id name =
    let (ch', removed) = remove_member ch id in
    let w' = store_channel w name ch' in
    if not removed
    then (w, err no_such_user)
    else if no_members ch'
    then (if is_safe_name name && ch'.modes.server_reop
        then (w', ok false)
        else (drop_channel w' name, ok true))
    else (w', ok false)

unfoldable pub part_channel : World → UserId → Bytes → World × Result Bool
part_channel w id name = elim (find_channel w name) [
  | none ↦ (w, err no_such_channel)
  | some ch ↦ leave w ch id name
]

-- the channels that the loop of `UserChannels` keeps
unfoldable pub user_channels : World → UserId → List Channel
user_channels w id = filterb (λ ch. is_member ch id) (map (λ e. e.1) w.by_channel)
