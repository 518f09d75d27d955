-- ===== src/State/World/Race/Lost.antt =====
-- A join between the two halves of which the last member parts.
use ircat.Base.{
  ◌≡◌, refl, ap, ◌∙◌, Bool, true, false, not, ◌&&◌, none, some, List, [], ◌∷◌, arith, if◌then◌else◌,
  Bytes, nat_eq, bytes_has_eq, beq_refl,
}
use ircat.Base.GoMap.{get, erase, get-put, get-erase}
use ircat.Base.Int.{ℤ}
use ircat.State.Casemap.{fold}
use ircat.State.Membership.{Membership}
use ircat.State.Channel.{UserId, Channel, remove_member, add_member}
use ircat.State.World.{User, is_empty, is_safe_name, no_members, enter}
use ircat.State.World.Race.{
  Ref, Shared, join_known, find_ref, ensure_ref, ensure_held, write_ref, Call, enter_object,
  part_found, leave_object, count_object, advance, Turn, schedule,
}

found_indexed :
    (s : Shared) (name : Bytes) (r : Ref)
    → is_empty name ≡ false
    → get (fold s.mapping name) s.by_channel ≡ some r
    → find_ref s name ≡ some r
unfolding find_ref
found_indexed s name r named h = ground arith

-- The joiner is found and takes its channel, the parting member goes through, and the joiner enters.
abbrev pub join_split : List Turn
join_split =
    Turn.left ∷ Turn.left ∷ Turn.right ∷ Turn.right ∷ Turn.right ∷ Turn.right ∷ Turn.left ∷ []

module _ (s : Shared) (now : ℤ) (name : Bytes) (r : Ref) where
  known_step :
      (b : UserId) (u : User)
      → get b s.by_id ≡ some u
      → advance now s (Call.joining b name) ≡ (s, Call.ensuring b name)
  unfolding advance
  known_step b u h = ap (join_known s b name) h

  ensuring_step :
      (b : UserId)
      → get (fold s.mapping name) s.by_channel ≡ some r
      → advance now s (Call.ensuring b name) ≡ (s, Call.holding b name r false)
  unfolding advance ensure_ref
  ensuring_step b h =
      ap
        (λ o.
          let (s', q, created) = ensure_held s name now o in (s', Call.holding b name q created))
        h

  parting_step :
      (a : UserId)
      → is_empty name ≡ false
      → get (fold s.mapping name) s.by_channel ≡ some r
      → advance now s (Call.parting a name) ≡ (s, Call.leaving a name r)
  unfolding advance find_ref
  parting_step a named h = ap (part_found s a name) (found_indexed s name r named h)

  leaving_step :
      (a : UserId) (ch ch' : Channel)
      → get r s.objects ≡ some ch
      → remove_member ch a ≡ (ch', true)
      → advance now s (Call.leaving a name r) ≡ (write_ref s r ch', Call.counting name r)
  unfolding advance
  leaving_step a ch ch' h e =
      ap (leave_object s a name r) h
      ∙ ap (λ p. (write_ref s r p.0, if p.1 then Call.counting name r else Call.failed)) e

  counting_step :
      (ch : Channel)
      → get r s.objects ≡ some ch
      → no_members ch && not (is_safe_name name && ch.modes.server_reop) ≡ true
      → advance now s (Call.counting name r) ≡ (s, Call.dropping name)
  unfolding advance
  counting_step ch h e = ap (count_object s name) h ∙ rw e refl

  holding_step :
      (b : UserId) (ch : Channel)
      → get r s.objects ≡ some ch
      → advance now s (Call.holding b name r false) ≡ (
        write_ref s r (enter ch b name false).0,
        Call.joined (enter ch b name false).1 (enter ch b name false).2,
      )
  unfolding advance
  holding_step b ch h = ap (enter_object s b name r false) h

abbrev emptied : Channel → Channel
emptied ch = record ch { members = [] }

remove_last :
    (ch : Channel) (a : UserId) (f : Membership)
    → ch.members ≡ (a, f) ∷ []
    → remove_member ch a ≡ (emptied ch, true)
unfolding remove_member get erase
remove_last ch a f h = rw (h, beq_refl a) refl

enter-emptied :
    (ch : Channel) (b : UserId) (name : Bytes)
    → is_safe_name name && ch.modes.server_reop ≡ false
    → ((enter (emptied ch) b name false).1 ≡ 0) × ((enter (emptied ch) b name false).2 ≡ true)
unfolding enter add_member get
enter-emptied ch b name h = (ground arith, ground arith)

abbrev dropped : Shared → Bytes → Shared
dropped s name = record s { by_channel = erase (fold s.mapping name) s.by_channel }

dropping_step :
    (s : Shared) (now : ℤ) (name : Bytes)
    → advance now s (Call.dropping name) ≡ (dropped s name, Call.parted true)
unfolding advance
dropping_step s now name = refl

wrote : (s : Shared) (r : Ref) (ch : Channel) → get r (write_ref s r ch).objects ≡ some ch
wrote s r ch = ground (arith, get-put r r ch s.objects, beq_refl r)

not_found :
    (s : Shared) (name : Bytes) (r : Ref) (ch : Channel)
    → find_ref (write_ref (dropped s name) r ch) name ≡ none
unfolding find_ref
not_found s name r ch = ground (
  arith,
  get-erase (fold s.mapping name) (fold s.mapping name) s.by_channel,
  beq_refl (fold s.mapping name),
)

told_join :
    {m : Membership} {added : Bool}
    → m ≡ 0
    → added ≡ true
    → Call.joined m added ≡ Call.joined 0 true
told_join hm ha = cc (hm, ha)

-- JoinChannel and PartChannel as steps under their locks: in any world whose index holds under a
-- name a channel with one member, and no safe channel with +r, let a known user who joins take the
-- channel, the member part, and the joiner enter. Both calls succeed, the joiner is told that it
-- was added with no flags, and the name then finds no channel.
pub lost_join :
    (s : Shared) (now : ℤ) (name : Bytes) (r : Ref) (ch : Channel) (a b : UserId) (f : Membership)
    (u : User)
    → get b s.by_id ≡ some u
    → is_empty name ≡ false
    → get (fold s.mapping name) s.by_channel ≡ some r
    → get r s.objects ≡ some ch
    → ch.members ≡ (a, f) ∷ []
    → is_safe_name name && ch.modes.server_reop ≡ false
    → let end = schedule now join_split (s, Call.joining b name, Call.parting a name) in
      (end.1 ≡ Call.joined 0 true) × (end.2 ≡ Call.parted true) × (find_ref end.0 name ≡ none)
unfolding schedule
lost_join s now name r ch a b f u known named indexed held alone mortal =
    let s1 = write_ref s r (emptied ch) in
    let told = enter-emptied ch b name mortal in
    let entering =
      holding_step (dropped s1 name) now name r b (emptied ch) (wrote s r (emptied ch)) in
    rw
      (
        known_step s now name r b u known,
        ensuring_step s now name r b indexed,
        parting_step s now name r a named indexed,
        leaving_step s now name r a ch (emptied ch) held (remove_last ch a f alone),
        counting_step s1 now name r (emptied ch) (wrote s r (emptied ch)) (ground (arith, mortal)),
        dropping_step s1 now name,
      )
      (
        ap (λ p. p.1) entering ∙ told_join told.0 told.1,
        refl,
        ap (λ p. find_ref p.0 name) entering
            ∙ not_found s1 name r (enter (emptied ch) b name false).0,
      )
