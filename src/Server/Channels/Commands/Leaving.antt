-- ===== src/Server/Channels/Commands/Leaving.antt =====
-- JOIN 0, which leaves every channel.
use mathlib.Core.Path.{subst}
use ircat.Base.{
  ℕ, ◌≡◌, refl, sym, ap, ◌∙◌, inl, inr, true, false, none, some, List, [], ◌∷◌, arith, Bool-cases,
  Option-cases, Bytes, codes, bytes_eq, nat_eq, bytes_has_eq,
}
use ircat.Base.GoMap.{get}
use ircat.Base.Int.{ℤ}
use ircat.State.Casemap.{CaseMapping}
use ircat.State.Channel.{UserId, Channel, is_member}
use ircat.State.World.{
  World, User, new_world, find_channel, part_channel, leave, drop_channel, user_channels,
}
use ircat.State.World.Users.Reach.{Reach}
use ircat.State.World.Channels.Leave.{part_channel_errors}
use ircat.Server.Channels.{part_one}
use ircat.Server.Channels.Commands.{part_all, handle_join}
use ircat.Server.Quit.Clean.{Covers, part-Covers, nobody, user_channels-Covers}

-- What `partOne` does to the world is what `PartChannel` does.
part_one-world :
    (w : World) (u : User) (name reason : Bytes)
    → (part_one w u name reason).0 ≡ (part_channel w u.id name).0
unfolding part_one
part_one-world w u name reason = elim (Option-cases (find_channel w name)) [
  | inl e ↦ rw (e, part_one) (ap (λ t. t.0) (sym ((part_channel_errors w u.id name).0 e)))
  | inr (ch, e) ↦ elim (Bool-cases (is_member ch u.id)) [
    | inl m ↦ rw (e, part_one, m) refl
    | inr m ↦ rw (e, part_one, m) (ap (λ t. t.0) (sym ((part_channel_errors w u.id name).1 ch e m)))
  ]
]

part_all-Covers :
    (chs : List Channel) (w : World) (u : User)
    → Covers u.id w chs
    → Covers u.id (part_all w u chs).0 []
unfolding part_all
part_all-Covers [] w u c = c
part_all-Covers (ch ∷ chs) w u c =
    part_all-Covers chs (part_one w u ch.name (codes "Left all channels")).0 u (
      subst (λ x. Covers u.id x chs) (sym (part_one-world w u ch.name (codes "Left all channels")))
        (part-Covers u.id w ch chs c))

pub part_channel-by_id :
    (w : World) (id : UserId) (name : Bytes) → (part_channel w id name).0.by_id ≡ w.by_id
unfolding part_channel leave drop_channel
part_channel-by_id w id name = elim (Option-cases (find_channel w name)) [
  | inl e ↦ rw (e, part_channel) refl
  | inr (ch, e) ↦ rw (e, part_channel) (ground arith)
]

part_all-by_id : (chs : List Channel) (w : World) (u : User) → (part_all w u chs).0.by_id ≡ w.by_id
unfolding part_all
part_all-by_id [] w u = refl
part_all-by_id (ch ∷ chs) w u =
    part_all-by_id chs (part_one w u ch.name (codes "Left all channels")).0 u
    ∙ ap (λ x. x.by_id) (part_one-world w u ch.name (codes "Left all channels"))
    ∙ part_channel-by_id w u.id ch.name

join_zero-world :
    (w : World) (u : User) (max : ℤ) (fresh : List Bytes) (now : ℤ)
    → u.registered ≡ true
    → (handle_join w u max fresh now (codes "0" ∷ [])).0 ≡ (part_all w u (user_channels w u.id)).0
unfolding handle_join bytes_eq
join_zero-world w u max fresh now h = rw h refl

-- JOIN 0 by a registered user, on a reached world with no channel of the empty name: no channel in
-- the index then has the user's ID among its members, and the users are stored as before.
pub join_zero_leaves :
    {m : CaseMapping} {n : ℕ} (w : World) (u : User) (max : ℤ) (fresh : List Bytes) (now : ℤ)
    → Reach (new_world m n) w
    → get [] w.by_channel ≡ none
    → u.registered ≡ true
    → let w' = (handle_join w u max fresh now (codes "0" ∷ [])).0 in
      (w'.by_id ≡ w.by_id)
      × ((k : Bytes) (ch : Channel) → get k w'.by_channel ≡ some ch → is_member ch u.id ≡ false)
join_zero_leaves w u max fresh now r named reg =
    let ran = join_zero-world w u max fresh now reg in
    (
      ap (λ x. x.by_id) ran ∙ part_all-by_id (user_channels w u.id) w u,
      λ k ch h.
          nobody u.id (part_all w u (user_channels w u.id)).0
            (part_all-Covers (user_channels w u.id) w u (user_channels-Covers w u.id r named)) k ch
            (ap (λ x. get k x.by_channel) (sym ran) ∙ h),
    )
