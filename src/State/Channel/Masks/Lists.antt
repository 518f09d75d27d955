-- ===== src/State/Channel/Masks/Lists.antt =====
-- What a mask list decides, and how its operations change that.
use ircat.Base.{
  ◌≡◌, ◌↔◌, inl, inr, true, false, ◌||◌, none, [], ◌∷◌, arith, ◌==◌, if◌then◌else◌, Bool-cases,
  Bytes, bytes_eq_iff, nat_eq, bytes_has_eq, beq_refl,
}
use ircat.Base.GoMap.{get, put, has, get-put, get-erase}
use ircat.Base.Int.{ℤ}
use ircat.State.Channel.{Channel, Masks, UserId}
use ircat.State.Glob.{glob_match}
use ircat.State.Glob.Spec.{Matches, IsStarFree}
use ircat.State.Glob.Sound.{glob_match-Matches}
use ircat.State.Glob.Complete.{glob_match_iff}
use ircat.State.Channel.Masks.{
  any_mask, add_ban, remove_ban, matches_ban, add_invite, consume_invite,
}

module _ (fold : Bytes → Bytes) (folded : Bytes) where
  -- Some mask of the list matches.
  abbrev pub Covered : Masks → Type 0
  Covered m = (mask : Bytes) × (has mask m ≡ true) × Matches (fold mask) folded

  any_mask-Covered : (m : Masks) → any_mask fold folded m ≡ true → Covered m
  unfolding any_mask get
  any_mask-Covered [] h = cc
  any_mask-Covered ((mask, at) ∷ m) h = elim (Bool-cases (glob_match (fold mask) folded)) [
    | inl e ↦ (mask, ground (arith, beq_refl mask), glob_match-Matches _ _ e)
    | inr e ↦
        let (mask', there, fits) = any_mask-Covered m (rw e at h) in (mask', ground arith, fits)
  ]

  any_mask_of_has :
      (m : Masks) (mask : Bytes)
      → has mask m ≡ true
      → glob_match (fold mask) folded ≡ true
      → any_mask fold folded m ≡ true
  unfolding any_mask get
  any_mask_of_has [] mask h g = cc
  any_mask_of_has ((j, at) ∷ m) mask h g =
      ground (arith, bytes_eq_iff j mask, any_mask_of_has m mask)

  any_mask-put :
      (m : Masks) (mask : Bytes) (at : ℤ)
      → any_mask fold folded (put mask at m)
        ≡ (glob_match (fold mask) folded || any_mask fold folded m)
  unfolding any_mask put
  any_mask-put [] mask at = ground arith
  any_mask-put ((j, a) ∷ m) mask at = ground (arith, bytes_eq_iff j mask, any_mask-put m mask at)

module _ (c : Channel) (hostmask : Bytes) (fold : Bytes → Bytes) where
  -- Under any folding that leaves no `*` in the hostmask, MatchesBan says that the hostmask is
  -- banned exactly when the meaning of some listed mask covers it.
  pub matches_ban_iff :
      IsStarFree (fold hostmask)
      → (matches_ban c hostmask fold ≡ true) ↔ Covered fold (fold hostmask) c.bans
  unfolding matches_ban
  matches_ban_iff free = (
    any_mask-Covered fold (fold hostmask) c.bans,
    λ (mask, there, fits).
        any_mask_of_has fold (fold hostmask) c.bans mask there ((glob_match_iff _ _ free).1 fits),
  )

  -- After AddBan, exactly what the new mask matches or was banned before is banned, also where the
  -- mask was listed already.
  pub matches_ban-add_ban :
      (mask : Bytes) (at : ℤ)
      → matches_ban (add_ban c mask at).0 hostmask fold
        ≡ (glob_match (fold mask) (fold hostmask) || matches_ban c hostmask fold)
  unfolding matches_ban add_ban
  matches_ban-add_ban mask at = elim (Bool-cases (has mask c.bans)) [
    | inl e ↦ rw e (ground (arith, any_mask_of_has fold (fold hostmask) c.bans mask))
    | inr e ↦ rw e (any_mask-put fold (fold hostmask) c.bans mask at)
  ]

-- Adding and then removing a mask that was not listed reports a change both times, and every mask
-- is then listed as before.
pub remove_ban-add_ban :
    (c : Channel) (mask other : Bytes) (at : ℤ)
    → has mask c.bans ≡ false
    → ((add_ban c mask at).1 ≡ true)
      × ((remove_ban (add_ban c mask at).0 mask).1 ≡ true)
      × (get other (remove_ban (add_ban c mask at).0 mask).0.bans ≡ get other c.bans)
unfolding add_ban remove_ban
remove_ban-add_ban c mask other at h = ground (
  arith,
  get-put mask mask at c.bans,
  get-put mask other at c.bans,
  get-erase mask other (put mask at c.bans),
  beq_refl mask,
  bytes_eq_iff mask other,
)

-- An invite lets its user in once: its first use finds it, the second does not, and the invites of
-- others stay.
pub consume_invite_once :
    (c : Channel) (id other : UserId)
    → let invited = (add_invite c id).0 in
      let used = (consume_invite invited id).0 in
      ((consume_invite invited id).1 ≡ true)
      × ((consume_invite used id).1 ≡ false)
      × (get other used.invites ≡ (if id == other then none else get other c.invites))
unfolding add_invite consume_invite
consume_invite_once c id other = ground (
  arith,
  get-put id id tt c.invites,
  get-put id other tt c.invites,
  get-erase id other c.invites,
  get-erase id id c.invites,
  get-erase id other (put id tt c.invites),
  get-erase id id (put id tt c.invites),
)
