-- ===== src/Server/Channels/Policy.antt =====
-- Who passes the door of a channel, and what a refusal leaves.
use ircat.Base.{
  ◌≡◌, refl, ap, ◌∙◌, inl, inr, Bool, true, false, not, ◌&&◌, ◌||◌, Option, none, some, arith,
  if◌then◌else◌, Option-cases, is_some, Bytes, bytes_eq, nat_eq, bytes_has_eq, beq_refl,
}
use ircat.Base.GoMap.{GoMap, erase, has, get-erase}
use ircat.Base.Int.{ℤ, pos, leb_ℤ}
use ircat.State.Casemap.{CaseMapping, fold}
use ircat.State.Channel.{Channel, UserId, member_count}
use ircat.State.Channel.Modes.{nonempty, positive}
use ircat.State.Channel.Masks.{matches_ban, matches_exception, matches_invex, consume_invite}
use ircat.State.World.{World, User, hostmask, is_empty, find_channel, store_channel}
use ircat.State.World.Channels.{find_channel-store_channel}
use ircat.Server.Channels.{
  JoinRefusal, pass_invite_only, other_refusal, check_join_policy, JoinOutcome, join_named,
  join_found, at_door,
}

module _ (m : CaseMapping) (c : Channel) (u : User) (key : Bytes) where
  -- the user needs an invite
  abbrev pub needs_invite : Bool
  needs_invite = c.modes.invite_only && not (matches_invex c (hostmask u) (fold m))

  abbrev pub is_invited : Bool
  is_invited = has u.id c.invites

  -- what the other tests ask for
  abbrev pub fits_key : Bool
  fits_key = not (nonempty c.key) || bytes_eq c.key key

  abbrev pub has_room : Bool
  has_room = not (positive c.limit) || not (leb_ℤ c.limit (pos (member_count c)))

  abbrev pub is_welcome : Bool
  is_welcome =
      not (matches_ban c (hostmask u) (fold m)) || matches_exception c (hostmask u) (fold m)

  abbrev pub passes : Bool
  passes = (not needs_invite || is_invited) && fits_key && has_room && is_welcome

  pass_invite_only_lem :
      ((pass_invite_only m c u).1 ≡ (needs_invite && not is_invited))
      × ((pass_invite_only m c u).0
          ≡ (if needs_invite && is_invited then record c { invites = erase u.id c.invites } else c))
  unfolding pass_invite_only consume_invite
  pass_invite_only_lem = (ground arith, ground arith)

  other_refusal_lem : is_some (other_refusal m c u key) ≡ not (fits_key && has_room && is_welcome)
  unfolding other_refusal
  other_refusal_lem = ground arith

  -- The other tests do not read the invites.
  other_refusal-invites :
      (l : GoMap UserId Unit)
      → other_refusal m (record c { invites = l }) u key ≡ other_refusal m c u key
  unfolding other_refusal matches_ban matches_exception
  other_refusal-invites l = refl

  either_door :
      (b : Bool)
      → other_refusal m (if b then record c { invites = erase u.id c.invites } else c) u key
        ≡ other_refusal m c u key
  either_door true = other_refusal-invites (erase u.id c.invites)
  either_door false = refl

  behind_door : other_refusal m (pass_invite_only m c u).0 u key ≡ other_refusal m c u key
  behind_door =
      ap (λ c'. other_refusal m c' u key) pass_invite_only_lem.1
      ∙ either_door (needs_invite && is_invited)

  -- checkJoinPolicy lets a user in exactly if it needs no invite or has one, and the key fits, and
  -- there is room, and no ban without an exception covers it; it changes the invites of the
  -- channel alone, and these only by using up the invite of a user who needs one.
  pub check_join_policy_lem :
      (is_some (check_join_policy m c u key).1 ≡ not passes)
      × ((check_join_policy m c u key).0
          ≡ (if needs_invite && is_invited then record c { invites = erase u.id c.invites } else c))
  unfolding check_join_policy
  check_join_policy_lem = (
    ground (arith, pass_invite_only_lem.0, behind_door, other_refusal_lem),
    ground (arith, pass_invite_only_lem.1),
  )

  wrong_key : fits_key ≡ false → other_refusal m c u key ≡ some JoinRefusal.bad_key
  unfolding other_refusal
  wrong_key h = ground arith

  -- A user who needs an invite, has one and gives a wrong key is refused for the key, and the
  -- invite is used up all the same.
  pub invite_lost :
      needs_invite ≡ true
      → is_invited ≡ true
      → fits_key ≡ false
      → ((check_join_policy m c u key).1 ≡ some JoinRefusal.bad_key)
        × (has u.id (check_join_policy m c u key).0.invites ≡ false)
  unfolding check_join_policy
  invite_lost needs invited wrong = (
    ground (arith, pass_invite_only_lem.0, behind_door, wrong_key wrong),
    ground (arith, pass_invite_only_lem, get-erase u.id u.id c.invites, beq_refl u.id),
  )

at_door_refused :
    (w : World) (u : User) (name : Bytes) (now : ℤ) (p : Channel × Option JoinRefusal)
    (reason : JoinRefusal)
    → p.1 ≡ some reason
    → at_door w u name now p ≡ (store_channel w name p.0, JoinOutcome.refused reason)
at_door_refused w u name now (c, none) reason h = absurd (ground arith)
at_door_refused w u name now (c, some r) reason h = ground arith

join_named_found :
    (w : World) (u : User) (name key : Bytes) (now : ℤ) (ch : Channel)
    → find_channel w name ≡ some ch
    → join_named w u name key now ≡ at_door w u name now (check_join_policy w.mapping ch u key)
unfolding join_named
join_named_found w u name key now ch found = ap (join_found w u name key now) found

same_members :
    (m : CaseMapping) (c : Channel) (u : User) (key : Bytes)
    → (check_join_policy m c u key).0.members ≡ c.members
same_members m c u key = ap (λ d. d.members) (check_join_policy_lem m c u key).1 ∙ ground arith

-- A JOIN of a channel that exists, by a user whom the tests at its door refuse, is refused, and
-- the channel found under the name then has the members that it had.
pub join_named_refused :
    (w : World) (u : User) (name key : Bytes) (now : ℤ) (ch : Channel)
    → is_empty name ≡ false
    → find_channel w name ≡ some ch
    → passes w.mapping ch u key ≡ false
    → (reason : JoinRefusal) × (after : Channel) × ((join_named w u name key now).1
        ≡ JoinOutcome.refused reason)
      × (find_channel (join_named w u name key now).0 name ≡ some after)
      × (after.members ≡ ch.members)
join_named_refused w u name key now ch named found shut =
    let checked = check_join_policy w.mapping ch u key in
    let door = check_join_policy_lem w.mapping ch u key in
    elim (Option-cases checked.1) [
      | inl e ↦ absurd (ground (arith, door.0))
      | inr (reason, e) ↦
          let result =
            join_named_found w u name key now ch found
            ∙ at_door_refused w u name now checked reason e in
          (
            reason,
            checked.0,
            ap (λ r. r.1) result,
            ap (λ r. find_channel r.0 name) result
                ∙ find_channel-store_channel w name checked.0 named,
            same_members w.mapping ch u key,
          )
    ]
