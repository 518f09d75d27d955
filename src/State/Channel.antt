-- ===== src/State/Channel.antt =====
-- `Channel` of internal/state/channel.go: the record, its creation, its timestamp, its topic and
-- its members. A method that locks and writes is a function from the channel to the new channel
-- and the result. Times are nanoseconds; the zero `time.Time` of a topic never set is `none`.
pub mod Modes
pub mod Masks
pub mod Members
use Prim.Native.Nat.{bit_or}
use ircat.Base.{
  ℕ, Bool, true, false, Option, none, some, [], ◌∷◌, ◌==◌, if◌then◌else◌, length, Bytes, nat_eq,
}
use ircat.Base.GoMap.{GoMap, get, put, erase, has, map_values}
use ircat.Base.Int.{ℤ, pos, leb_ℤ}
use ircat.State.Membership.{Membership, member_op, member_creator, and_not}

abbrev pub UserId : Type 0
UserId = ℕ

abbrev pub Masks : Type 0
Masks = GoMap Bytes ℤ

pub record ChannelModes : Type 0 where
  pub invite_only : Bool
  pub moderated : Bool
  pub no_external : Bool
  pub private : Bool
  pub secret : Bool
  pub topic_locked : Bool
  pub anonymous : Bool
  pub server_reop : Bool

-- `channelModes{}`
abbrev pub no_modes : ChannelModes
no_modes = record {
  invite_only = false;
  moderated = false;
  no_external = false;
  private = false;
  secret = false;
  topic_locked = false;
  anonymous = false;
  server_reop = false;
}

pub record Channel : Type 0 where
  pub name : Bytes
  pub created_at : ℤ
  pub topic : Bytes
  pub topic_set_by : Bytes
  pub topic_set_at : Option ℤ
  pub key : Bytes
  pub limit : ℤ
  pub modes : ChannelModes
  pub members : GoMap UserId Membership
  pub bans : Masks
  pub exceptions : Masks
  pub invexes : Masks
  pub quiets : Masks
  pub invites : GoMap UserId Unit

unfoldable pub new_channel : Bytes → ℤ → Channel
new_channel name now = record {
  name = name;
  created_at = now;
  topic = [];
  topic_set_by = [];
  topic_set_at = none;
  key = [];
  limit = pos 0;
  modes = record no_modes { no_external = true; topic_locked = true };
  members = [];
  bans = [];
  exceptions = [];
  invexes = [];
  quiets = [];
  invites = [];
}

unfoldable pub adopt_older_ts : Channel → ℤ → Channel × Bool
adopt_older_ts c ts =
    if leb_ℤ ts (pos 0)
    then (c, false)
    else if leb_ℤ c.created_at ts
    then (c, false)
    else (record c { created_at = ts }, true)

unfoldable pub reset_membership_flags : Channel → Channel
reset_membership_flags c = record c { members = map_values (λ _. 0) c.members }

unfoldable pub set_topic : Channel → Bytes → Bytes → Option ℤ → Channel
set_topic c text set_by at = record c { topic = text; topic_set_by = set_by; topic_set_at = at }

abbrev pub member_count : Channel → ℕ
member_count c = length c.members

abbrev pub is_member : Channel → UserId → Bool
is_member c id = has id c.members

-- A read of a missing key gives the zero value.
abbrev pub flags_or_zero : Option Membership → Membership
flags_or_zero none = 0
flags_or_zero (some m) = m

abbrev pub membership : Channel → UserId → Membership
membership c id = flags_or_zero (get id c.members)

first_of_prefix : ℕ → Membership
first_of_prefix b = if b == b'+' then 0 else if b == b'!' then member_creator else member_op

-- the flag of a first joiner, by the first byte of the name
unfoldable pub founder_flag : Bytes → Membership
unfolding first_of_prefix
founder_flag [] = 0
founder_flag (b ∷ _) = first_of_prefix b

unfoldable pub add_member : Channel → UserId → Bool → Channel × Membership × Bool
add_member c id is_first = elim (get id c.members) [
  | some existing ↦ (c, existing, false)
  | none ↦
      let m : Membership = if is_first then founder_flag c.name else 0 in
      (record c { members = put id m c.members }, m, true)
]

unfoldable pub remove_member : Channel → UserId → Channel × Bool
remove_member c id =
    if has id c.members then (record c { members = erase id c.members }, true) else (c, false)

unfoldable pub set_membership : Channel → UserId → Membership → Channel × Bool
set_membership c id m =
    if has id c.members then (record c { members = put id m c.members }, true) else (c, false)

unfoldable pub add_membership : Channel → UserId → Membership → Channel × Membership × Bool
add_membership c id flags = elim (get id c.members) [
  | none ↦ (c, 0, false)
  | some cur ↦
      let m : Membership = bit_or cur flags in (record c { members = put id m c.members }, m, true)
]

unfoldable pub remove_membership : Channel → UserId → Membership → Channel × Membership × Bool
remove_membership c id flags = elim (get id c.members) [
  | none ↦ (c, 0, false)
  | some cur ↦
      let m : Membership = and_not cur (and_not flags member_creator) in
      (record c { members = put id m c.members }, m, true)
]
