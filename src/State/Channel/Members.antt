-- ===== src/State/Channel/Members.antt =====
-- Member operations: what each reports, and the flags of every user after it.
use Prim.Native.Nat.{bit_or}
use ircat.Base.{◌<◌, ◌≡◌, Bool, not, none, some, [], ◌∷◌, arith, ◌==◌, if◌then◌else◌, Bytes, nat_eq}
use ircat.Base.GoMap.{get, get-put, get-erase, put-Distinct, erase-Distinct, Distinct}
use ircat.Base.Int.{ℤ}
use ircat.State.Membership.{Membership, is_creator}
use ircat.State.Membership.Flags.{cleared, is_creator-cleared, flags-lt}
use ircat.State.Channel.{
  Channel, UserId, membership, is_member, founder_flag, add_member, remove_member, add_membership,
  remove_membership, adopt_older_ts,
}

-- addMember of a member changes no entry and says so; of another user it adds that user, with the
-- founder's flag if it is the first, and changes nobody else's entry.
pub add_member_lem :
    (c : Channel) (id j : UserId) (first : Bool)
    → ((add_member c id first).2 ≡ not (is_member c id))
      × (get j (add_member c id first).0.members ≡ (
          if is_member c id
          then get j c.members
          else if id == j
          then some (if first then founder_flag c.name else 0)
          else get j c.members))
unfolding add_member
add_member_lem c id j first =
    ground (arith, get-put id j (if first then founder_flag c.name else 0) c.members)

-- removeMember reports whether the user was a member, and takes that user's entry and no other.
pub remove_member_lem :
    (c : Channel) (id j : UserId)
    → ((remove_member c id).1 ≡ is_member c id)
      × (get j (remove_member c id).0.members ≡ (if id == j then none else get j c.members))
unfolding remove_member
remove_member_lem c id j = ground (arith, get-erase id j c.members)

-- Every stored flag set is a byte, and no user is listed twice.
pub record IsSound (c : Channel) : Type 0 where
  pub bytes : (id : UserId) → membership c id < 256
  pub distinct : Distinct c.members

founder_flag-lt : (name : Bytes) (first : Bool) → (if first then founder_flag name else 0) < 256
unfolding founder_flag
founder_flag-lt [] first = ground arith
founder_flag-lt (b ∷ name) first = ground arith

add_member-IsSound :
    (c : Channel) (id : UserId) (first : Bool) → IsSound c → IsSound (add_member c id first).0
unfolding add_member
add_member-IsSound c id first v =
    let m : Membership = if first then founder_flag c.name else 0 in
    record {
      bytes =
          λ j. ground (arith, get-put id j m c.members, founder_flag-lt c.name first, v.bytes j);
      distinct = ground (arith, put-Distinct id m c.members v.distinct);
    }

remove_member-IsSound : (c : Channel) (id : UserId) → IsSound c → IsSound (remove_member c id).0
unfolding remove_member
remove_member-IsSound c id v = record {
  bytes = λ j. ground (arith, get-erase id j c.members, v.bytes j);
  distinct = ground (arith, erase-Distinct id c.members v.distinct);
}

pub add_membership-IsSound :
    (c : Channel) (id : UserId) (flags : Membership)
    → flags < 256
    → IsSound c
    → IsSound (add_membership c id flags).0
unfolding add_membership
add_membership-IsSound c id flags h v =
    let m : Membership = bit_or (membership c id) flags in
    record {
      bytes = λ j. ground (
        arith,
        get-put id j m c.members,
        flags-lt (membership c id) flags (v.bytes id) h,
        v.bytes j,
      );
      distinct = ground (arith, put-Distinct id m c.members v.distinct);
    }

pub remove_membership-IsSound :
    (c : Channel) (id : UserId) (flags : Membership)
    → flags < 256
    → IsSound c
    → IsSound (remove_membership c id flags).0
unfolding remove_membership
remove_membership-IsSound c id flags h v =
    let m : Membership = cleared (membership c id) flags in
    record {
      bytes = λ j. ground (
        arith,
        get-put id j m c.members,
        flags-lt (membership c id) flags (v.bytes id) h,
        v.bytes j,
      );
      distinct = ground (arith, put-Distinct id m c.members v.distinct);
    }

-- On a channel whose members are listed once with a byte of flags, RemoveMembership of any byte of
-- flags from any user leaves the creator flag of every user as it was.
pub remove_membership-is_creator :
    (c : Channel) (id j : UserId) (flags : Membership)
    → flags < 256
    → IsSound c
    → is_creator (membership (remove_membership c id flags).0 j) ≡ is_creator (membership c j)
unfolding remove_membership
remove_membership-is_creator c id j flags h v = ground (
  arith,
  get-put id j (cleared (membership c id) flags) c.members,
  is_creator-cleared (membership c id) flags (v.bytes id) h,
)

-- Two timestamps adopted in either order give the same channel.
pub adopt_older_ts_comm :
    (c : Channel) (a b : ℤ)
    → (adopt_older_ts (adopt_older_ts c a).0 b).0 ≡ (adopt_older_ts (adopt_older_ts c b).0 a).0
unfolding adopt_older_ts
adopt_older_ts_comm c a b = ground arith
