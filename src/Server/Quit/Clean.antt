-- ===== src/Server/Quit/Clean.antt =====
-- What a closed connection leaves behind.
use mathlib.Core.Path.{subst}
use ircat.Base.{
  ℕ, ◌≡◌, refl, sym, ap, ◌∙◌, inl, inr, Bool, true, false, not, ◌&&◌, none, some, List, [], ◌∷◌,
  map, arith, Bool-cases, Option-cases, any, filterb, Bytes, codes, bytes_eq, bytes_eq_iff, nat_eq,
  bytes_has_eq,
}
use ircat.Base.GoMap.{GoMap, get, get-erase}
use ircat.Base.Int.{ℤ}
use ircat.Protocol.Message.{Message}
use ircat.State.Casemap.{CaseMapping, fold}
use ircat.State.Channel.{UserId, Channel, is_member, remove_member}
use ircat.State.World.{
  World, User, new_world, is_empty, find_by_id, find_channel, part_channel, leave, drop_channel,
  user_channels,
}
use ircat.State.World.Users.Reach.{Reach}
use ircat.State.World.Users.Leave.{removed_channels, removed_id}
use ircat.State.World.Channels.Leave.{without, part_channel_lem, part_channel_errors}
use ircat.State.World.Channels.Tended.{Reach-IsTended}
use ircat.Server.Federation.{Site, push, or_text, record_whowas}
use ircat.Server.Federation.Forward.{quit_of, forward_to_all_links}
use ircat.Server.Registration.Commands.{tell_members}
use ircat.Server.Quit.{leave_channels, broadcast_quit, close_conn}

module _ (id : UserId) where
  without_out : (ch : Channel) → is_member (without ch id) id ≡ false
  unfolding remove_member
  without_out ch = ground (arith, get-erase id id ch.members)

  -- A channel that has the user after a part is another one, and was there before.
  part_kept :
      (w : World) (name : Bytes) (k : Bytes) (x : Channel)
      → get k (part_channel w id name).0.by_channel ≡ some x
      → is_member x id ≡ true
      → is_empty name ≡ false
      → (bytes_eq (fold w.mapping name) k ≡ false) × (get k w.by_channel ≡ some x)
  unfolding find_channel
  part_kept w name k x h m full = elim (Option-cases (find_channel w name)) [
    | inl e ↦
        let before : get k w.by_channel ≡ some x =
          ap (λ t. get k t.0.by_channel) (sym ((part_channel_errors w id name).0 e)) ∙ h in
        (ground (arith, before, bytes_eq_iff (fold w.mapping name) k), before)
    | inr (ch, e) ↦ elim (Bool-cases (is_member ch id)) [
      | inl here ↦
          let at_k = (part_channel_lem w id name ch k id e here).1 in
          let out = without_out ch in ground (arith, at_k, h, out, m)
      | inr away ↦
          let before : get k w.by_channel ≡ some x =
            ap (λ t. get k t.0.by_channel) (sym ((part_channel_errors w id name).1 ch e away))
            ∙ h in
          (ground (arith, before, bytes_eq_iff (fold w.mapping name) k), before)
    ]
  ]

  part_empty :
      (w : World) (name : Bytes)
      → is_empty name ≡ true
      → (part_channel w id name).0.by_channel ≡ w.by_channel
  unfolding find_channel
  part_empty w name h = ap (λ t. t.0.by_channel) ((part_channel_errors w id name).0 (ground arith))

  -- a channel of a name that is not empty, filed under a key
  abbrev pub filed_at : World → Bytes → Channel → Bool
  filed_at w k c = bytes_eq (fold w.mapping c.name) k && not (is_empty c.name)

  -- Each channel that has the user stands in the list that is left.
  abbrev pub Covers : World → List Channel → Type 0
  Covers w chs =
      (k : Bytes) (x : Channel)
      → get k w.by_channel ≡ some x
      → is_member x id ≡ true
      → any (filed_at w k) chs ≡ true

  part-mapping : (w : World) (name : Bytes) → (part_channel w id name).0.mapping ≡ w.mapping
  unfolding part_channel leave drop_channel
  part-mapping w name = elim (Option-cases (find_channel w name)) [
    | inl e ↦ rw (e, part_channel) refl
    | inr (ch, e) ↦ rw (e, part_channel) (ground arith)
  ]

  pub part-Covers :
      (w : World) (ch : Channel) (chs : List Channel)
      → Covers w (ch ∷ chs)
      → Covers (part_channel w id ch.name).0 chs
  unfolding any
  part-Covers w ch chs c k x h m =
      subst (λ m'. any (λ c. bytes_eq (fold m' c.name) k && not (is_empty c.name)) chs ≡ true)
        (sym (part-mapping w ch.name))
        (elim (Bool-cases (is_empty ch.name)) [
          | inl e ↦
              let before : get k w.by_channel ≡ some x =
                ap (get k) (sym (part_empty w ch.name e)) ∙ h in
              ground (arith, c k x before m, e)
          | inr e ↦
              let (other, before) = part_kept w ch.name k x h m e in
              ground (arith, c k x before m, other)
        ])

  leave-Covers :
      (chs : List Channel) (s : Site) (msg : Message) (seen : GoMap UserId (Unit {0}))
      → Covers s.world chs
      → Covers (leave_channels s id msg seen chs).world []
  unfolding leave_channels
  leave-Covers [] s msg seen c = c
  leave-Covers (ch ∷ chs) s msg seen c =
      let (seen', out) = tell_members msg seen ch.members in
      let told = push s out in
      leave-Covers chs (record told { world = (part_channel told.world id ch.name).0 }) msg seen'
        (part-Covers s.world ch chs c)

  listed :
      (m : CaseMapping) (l : GoMap Bytes Channel) (k : Bytes) (x : Channel)
      → get k l ≡ some x
      → fold m x.name ≡ k
      → is_member x id ≡ true
      → is_empty x.name ≡ false
      → any
          (λ c. bytes_eq (fold m c.name) k && not (is_empty c.name))
          (filterb (λ ch. is_member ch id) (map (λ e. e.1) l))
        ≡ true
  unfolding any filterb get
  listed m [] k x h f e g = cc
  listed m ((j, c) ∷ l) k x h f e g = elim (Bool-cases (bytes_eq j k)) [
    | inl same ↦
        let found : c ≡ x = ground arith in
        let at_k : bytes_eq (fold m x.name) k ≡ true = (bytes_eq_iff (fold m x.name) k).1 f in
        rw (found, e, at_k, g) refl
    | inr other ↦ ground (arith, listed m l k x (ground arith) f e g)
  ]

fold_empty : (m : CaseMapping) (name : Bytes) → is_empty name ≡ true → fold m name ≡ []
unfolding fold
fold_empty m [] h = refl
fold_empty m (b ∷ name) h = cc

has_name :
    (w : World) (k : Bytes) (x : Channel)
    → get k w.by_channel ≡ some x
    → fold w.mapping x.name ≡ k
    → get [] w.by_channel ≡ none
    → is_empty x.name ≡ false
has_name w k x h file named = elim (Bool-cases (is_empty x.name)) [
  | inl e ↦
      let key : k ≡ [] = sym file ∙ fold_empty w.mapping x.name e in
      let there : get [] w.by_channel ≡ some x = ap (λ j. get j w.by_channel) (sym key) ∙ h in cc
  | inr e ↦ e
]

pub user_channels-Covers :
    {m : CaseMapping} {n : ℕ} (w : World) (id : UserId)
    → Reach (new_world m n) w
    → get [] w.by_channel ≡ none
    → Covers id w (user_channels w id)
unfolding user_channels
user_channels-Covers w id r named k x h e =
    let file = (Reach-IsTended r).filed k x h in
    listed id w.mapping w.by_channel k x h file e (has_name w k x h file named)

has_left :
    {m : CaseMapping} {n : ℕ} (s : Site) (u : User) (reason : Bytes)
    → Reach (new_world m n) s.world
    → get [] s.world.by_channel ≡ none
    → Covers u.id (broadcast_quit s u reason).world []
unfolding broadcast_quit forward_to_all_links
has_left s u reason r named =
    leave-Covers u.id (user_channels s.world u.id) s (quit_of reason u) ((u.id, tt) ∷ [])
      (user_channels-Covers s.world u.id r named)

pub nobody :
    (id : UserId) (w : World)
    → Covers id w []
    → (k : Bytes) (ch : Channel) → get k w.by_channel ≡ some ch
    → is_member ch id ≡ false
unfolding any
nobody id w c k ch h = elim (Bool-cases (is_member ch id)) [
  | inl e ↦ absurd (ground (arith, c k ch h e))
  | inr e ↦ e
]

-- When a connection closes, on a reached world with no channel of the empty name, no user is
-- stored under its user's ID afterwards, and no channel in the index has that ID among its
-- members.
pub closed_is_gone :
    {m : CaseMapping} {n : ℕ} (s : Site) (u : User) (reason : Bytes) (now : ℤ)
    → Reach (new_world m n) s.world
    → get [] s.world.by_channel ≡ none
    → let s' = close_conn s (some u) reason now in
      (find_by_id s'.world u.id ≡ none)
      × ((k : Bytes) (ch : Channel)
          → get k s'.world.by_channel ≡ some ch
          → is_member ch u.id ≡ false)
unfolding close_conn record_whowas
closed_is_gone s u reason now r named =
    let told = broadcast_quit s u (or_text reason (codes "Client closed connection")) in
    let noted = record_whowas told u now in
    (
      removed_id noted.world u.id,
      λ k ch h.
          nobody u.id told.world
            (has_left s u (or_text reason (codes "Client closed connection")) r named) k ch
            (ap (get k) (sym (removed_channels noted.world u.id)) ∙ h),
    )
