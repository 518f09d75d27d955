-- ===== src/State/World/Channels.antt =====
-- Joining: what it reports, and the channel that the world then has.
pub mod Leave
pub mod Tended
use Prim.Native.Nat.{bit_or}
use ircat.Base.{
  ◌≡◌, refl, inl, inr, Bool, true, false, not, ◌&&◌, Option, none, some, [], ◌∷◌, arith,
  if◌then◌else◌, Option-cases, Bytes, nat_eq, bytes_has_eq, beq_refl,
}
use ircat.Base.GoMap.{GoMap, get, put, has, get-put}
use ircat.Base.Int.{ℤ}
use ircat.State.Casemap.{fold}
use ircat.State.Membership.{Membership, member_op, is_op}
use ircat.State.Channel.{
  UserId, Channel, new_channel, is_member, membership, founder_flag, add_member, add_membership,
}
use ircat.State.World.{
  World, store_channel, find_channel, ensure_channel, is_safe_name, no_members, enter, join_channel,
  is_empty, ok,
}

has-ne-empty : (id : UserId) (ch : Channel) → has id ch.members ≡ true → no_members ch ≡ false
unfolding get
has-ne-empty id ch h = go ch.members h
  where
    go :
        (m : GoMap UserId Membership)
        → has id m ≡ true
        → (elim m [ [] ↦ true | _ ∷ _ ↦ false ]) ≡ false
    go [] h = cc
    go (e ∷ m) h = refl

-- A channel written under a name is found under it.
pub find_channel-store_channel :
    (w : World) (name : Bytes) (ch : Channel)
    → is_empty name ≡ false
    → find_channel (store_channel w name ch) name ≡ some ch
unfolding find_channel
find_channel-store_channel w name ch named = ground (
  arith,
  get-put (fold w.mapping name) (fold w.mapping name) ch w.by_channel,
  beq_refl (fold w.mapping name),
)

-- What a joiner of the channel found under the name, if any, is told: its flags, and whether it
-- was added.
abbrev pub joined : Bytes → UserId → Option Channel → Membership × Bool
joined name id none = (founder_flag name, true)
joined name id (some ch) =
    if is_member ch id
    then (membership ch id, false)
    else if no_members ch && is_safe_name name && ch.modes.server_reop
    then (member_op, true)
    else (0, true)

module _ (ch : Channel) (id : UserId) (name : Bytes) where
  -- The entered channel has the joiner, with the flags that the joiner is told.
  enter_lem :
      (created : Bool)
      → let r = enter ch id name created in
        (get id r.0.members ≡ some r.1) × (r.0.name ≡ ch.name) × (r.0.modes ≡ ch.modes)
  unfolding enter add_member add_membership
  enter_lem created =
      let m : Membership = if created then founder_flag ch.name else 0 in
      ground (
        arith,
        get-put id id m ch.members,
        get-put id id (bit_or m member_op) (put id m ch.members),
      )

  enter_old : (enter ch id name false).1 ≡ (joined name id (some ch)).0
  unfolding enter add_member add_membership is_op
  enter_old = ground (arith, get-put id id 0 ch.members)

  enter_added : (created : Bool) → (enter ch id name created).2 ≡ not (is_member ch id)
  unfolding enter add_member add_membership
  enter_added created = ground arith

new_channel_members : (name : Bytes) (now : ℤ) → (new_channel name now).members ≡ []
unfolding new_channel
new_channel_members name now = refl

enter_new :
    (name : Bytes) (now : ℤ) (id : UserId)
    → (enter (new_channel name now) id name true).1 ≡ founder_flag name
unfolding enter add_member new_channel get
enter_new name now id = refl

-- A known user that joins a channel by a name that is not empty is told its flags: the founder's
-- in a channel that the join creates, its old ones where it is a member, op in an empty safe
-- channel with +r, none otherwise; the channel is then found and lists the user with those flags.
pub join_channel_lem :
    (w : World) (id : UserId) (name : Bytes) (now : ℤ)
    → has id w.by_id ≡ true
    → is_empty name ≡ false
    → let told = joined name id (find_channel w name) in
      ((join_channel w id name now).1 ≡ ok told)
      × (ch : Channel) × (find_channel (join_channel w id name now).0 name ≡ some ch)
      × (get id ch.members ≡ some told.0)
unfolding join_channel find_channel ensure_channel get
join_channel_lem w id name now known ne =
    elim (Option-cases (get (fold w.mapping name) w.by_channel)) [
      | inl e ↦
          let ch = new_channel name now in
          let r = enter ch id name true in
          let stored = put (fold w.mapping name) ch w.by_channel in
          (
            ground (
              arith,
              enter_new name now id,
              new_channel_members name now,
              enter_added ch id name true,
            ),
            r.0,
            ground (
              arith,
              get-put (fold w.mapping name) (fold w.mapping name) r.0 stored,
              beq_refl (fold w.mapping name),
            ),
            ground (arith, enter_new name now id, enter_lem ch id name true),
          )
      | inr (ch, e) ↦
          let r = enter ch id name false in
          (
            ground (arith, enter_old ch id name, enter_added ch id name false),
            r.0,
            ground (
              arith,
              get-put (fold w.mapping name) (fold w.mapping name) r.0 w.by_channel,
              beq_refl (fold w.mapping name),
            ),
            ground (arith, enter_old ch id name, enter_lem ch id name false),
          )
    ]
