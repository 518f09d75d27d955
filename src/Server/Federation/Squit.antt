-- ===== src/Server/Federation/Squit.antt =====
-- SQUIT: the users of the lost peer leave, and a message that comes again is dropped.
pub mod Repeated
use ircat.Base.{
  ℕ, ◌+◌, ◌≡◌, refl, ap, ◌∙◌, inl, inr, Bool, true, false, ◌&&◌, ◌||◌, Option, none, some, [], ◌∷◌,
  arith, ◌==◌, if◌then◌else◌, ==_iff, Bool-cases, Bytes, codes, bytes_eq, nat_eq, bytes_has_eq,
}
use ircat.Base.{beq_refl}
use ircat.Base.GoMap.{GoMap, get, get-put, Distinct}
use ircat.Base.Int.{ℤ}
use ircat.State.Casemap.{CaseMapping}
use ircat.State.Channel.{UserId}
use ircat.State.World.{User, new_world, is_empty, find_by_id, remove_user}
use ircat.State.World.Users.{IsConsistent}
use ircat.State.World.Users.Reach.{Reach, Reach-IsConsistent}
use ircat.State.World.Users.Leave.{removed_channels, get-remove_user}
use ircat.Server.Federation.{
  Site, SquitKey, squit_key_eq, push, record_whowas, deliver_per_user_channels, squit_seen_recently,
  unexpired, squit_seen_ttl, or_text,
}
use ircat.Server.Federation.Forward.{
  lose_user, quit_of, to_other_links, squit_message, lose_users, handle_squit,
}
use ircat.Server.Federation.Sends.{per_user_sends}

-- The users of one peer taken out of a list of users.
abbrev pub stays : Bytes → Option User → Option User
stays peer none = none
stays peer (some u) = if bytes_eq u.home_server peer then none else some u

-- whether the loop removes an ID
unfoldable hit : Bytes → UserId → GoMap UserId User → Bool
hit peer id [] = false
hit peer id ((_, u) ∷ users) = bytes_eq u.home_server peer && u.id == id || hit peer id users

lose_user-world :
    (s : Site) (peer reason : Bytes) (time : ℤ) (u : User)
    → (lose_user s peer reason time u).world
      ≡ (if bytes_eq u.home_server peer then (remove_user s.world u.id).0 else s.world)
unfolding lose_user record_whowas
lose_user-world s peer reason time u =
    let sends : (deliver_per_user_channels s (quit_of reason u)).world ≡ s.world =
      ap (λ x. x.world) (per_user_sends s (quit_of reason u)) in
    elim (Bool-cases (bytes_eq u.home_server peer)) [
      | inl e ↦ rw e (ap (λ w. (remove_user w u.id).0) sends)
      | inr e ↦ rw e refl
    ]

lose_user-get :
    (s : Site) (peer reason : Bytes) (time : ℤ) (u : User) (id : UserId)
    → get id (lose_user s peer reason time u).world.by_id
      ≡ (if bytes_eq u.home_server peer && u.id == id then none else get id s.world.by_id)
lose_user-get s peer reason time u id =
    rw (lose_user-world s peer reason time u) (elim (Bool-cases (bytes_eq u.home_server peer)) [
      | inl e ↦ rw e (get-remove_user s.world u.id id)
      | inr e ↦ rw e refl
    ])

lose_users-get :
    (users : GoMap UserId User) (s : Site) (peer reason : Bytes) (time : ℤ) (id : UserId)
    → get id (lose_users s peer reason time users).world.by_id
      ≡ (if hit peer id users then none else get id s.world.by_id)
unfolding lose_users hit
lose_users-get [] s peer reason time id = refl
lose_users-get ((k, u) ∷ users) s peer reason time id = ground (
  arith,
  lose_users-get users (lose_user s peer reason time u) peer reason time id,
  lose_user-get s peer reason time u id,
)

-- The users in a list whose entries carry their own IDs.
abbrev Keyed : GoMap UserId User → Type 0
Keyed [] = Unit
Keyed ((k, u) ∷ m) = (u.id ≡ k) × Keyed m

hit-none :
    (peer : Bytes) (id : UserId) (users : GoMap UserId User)
    → Keyed users
    → get id users ≡ none
    → hit peer id users ≡ false
unfolding hit get
hit-none peer id [] k h = refl
hit-none peer id ((j, u) ∷ users) k h = ground (arith, hit-none peer id users k.1)

hit_lem :
    (peer : Bytes) (id : UserId) (users : GoMap UserId User)
    → Keyed users
    → Distinct users
    → (if hit peer id users then none else get id users) ≡ stays peer (get id users)
unfolding hit get
hit_lem peer id [] k d = refl
hit_lem peer id ((j, u) ∷ users) k d = elim (Bool-cases (j == id)) [
  | inl e ↦
      let none_left : get id users ≡ none = rw (← (==_iff j id).0 e) d.0 in
      ground (arith, hit-none peer id users k.1 none_left)
  | inr e ↦ ground (arith, hit_lem peer id users k.1 d.1)
]

Keyed-entries :
    (m : GoMap UserId User)
    → Distinct m
    → ((id : UserId) (u : User) → get id m ≡ some u → u.id ≡ id)
    → Keyed m
unfolding get
Keyed-entries [] d h = tt
Keyed-entries ((k, u) ∷ m) d h =
    (h k u (ground arith), Keyed-entries m d.1 (λ id x e. h id x (ground (arith, ==_iff k id))))

lose_users-channels :
    (users : GoMap UserId User) (s : Site) (peer reason : Bytes) (time : ℤ)
    → (lose_users s peer reason time users).world.by_channel ≡ s.world.by_channel
unfolding lose_users
lose_users-channels [] s peer reason time = refl
lose_users-channels ((k, u) ∷ users) s peer reason time =
    lose_users-channels users (lose_user s peer reason time u) peer reason time ∙ one
  where
    one : (lose_user s peer reason time u).world.by_channel ≡ s.world.by_channel
    one = ground (arith, lose_user-world s peer reason time u, removed_channels s.world u.id)

lose_user-seen :
    (s : Site) (peer reason : Bytes) (time : ℤ) (u : User)
    → (lose_user s peer reason time u).squit_seen ≡ s.squit_seen
unfolding lose_user record_whowas
lose_user-seen s peer reason time u = elim (Bool-cases (bytes_eq u.home_server peer)) [
  | inl e ↦ rw e (ap (λ x. x.squit_seen) (per_user_sends s (quit_of reason u)))
  | inr e ↦ rw e refl
]

lose_users-seen :
    (users : GoMap UserId User) (s : Site) (peer reason : Bytes) (time : ℤ)
    → (lose_users s peer reason time users).squit_seen ≡ s.squit_seen
unfolding lose_users
lose_users-seen [] s peer reason time = refl
lose_users-seen ((k, u) ∷ users) s peer reason time =
    lose_users-seen users (lose_user s peer reason time u) peer reason time
    ∙ lose_user-seen s peer reason time u

-- the reason that stands in the messages
abbrev pub reason_of : Bytes → Bytes
reason_of reason = or_text reason (codes "Net split")

-- the guard has not seen the message lately
abbrev pub Unseen : Site → Bytes → Bytes → ℕ → Type 0
Unseen s peer reason now = (squit_seen_recently s (peer, reason_of reason) now).1 ≡ false

-- A message that the guard has seen, or that names no peer, leaves the world alone.
pub handle_squit-dropped :
    (s : Site) (peer reason : Bytes) (now : ℕ) (time : ℤ)
    → is_empty peer || (squit_seen_recently s (peer, reason_of reason) now).1 ≡ true
    → (handle_squit s peer reason now time).world ≡ s.world
unfolding handle_squit squit_seen_recently
handle_squit-dropped s peer reason now time h = ground arith

module _ (s : Site) (peer reason : Bytes) (now : ℕ) (time : ℤ) (full : is_empty peer ≡ false)
    (fresh : Unseen s peer reason now) where
  abbrev begun : Site
  begun = (squit_seen_recently s (peer, reason_of reason) now).0

  abbrev users_lost : Site
  users_lost = lose_users begun peer (reason_of reason) time begun.world.by_id

  handled :
      (handle_squit s peer reason now time)
      ≡ push users_lost
          (to_other_links peer (squit_message s peer (reason_of reason)) users_lost.links)
  unfolding handle_squit
  handled = rw (full, fresh) refl

  begun-world : begun.world ≡ s.world
  unfolding squit_seen_recently
  begun-world = ground arith

  noted : get (peer, reason_of reason) begun.squit_seen ≡ some (now + squit_seen_ttl)
  unfolding squit_seen_recently
  noted = ground (
    arith,
    get-put (peer, reason_of reason) (peer, reason_of reason) (now + squit_seen_ttl)
        (unexpired now s.squit_seen),
    beq_refl {A = SquitKey} (peer, reason_of reason),
  )

  pub users_left :
      (id : UserId)
      → Distinct s.world.by_id
      → IsConsistent s.world
      → find_by_id (handle_squit s peer reason now time).world id
        ≡ stays peer (find_by_id s.world id)
  unfolding find_by_id
  users_left id d v =
      ap (λ x. get id x.world.by_id) handled
      ∙ lose_users-get begun.world.by_id begun peer (reason_of reason) time id
      ∙ ap (λ w. if hit peer id w.by_id then none else get id w.by_id) begun-world
      ∙ hit_lem peer id s.world.by_id (Keyed-entries s.world.by_id d (λ j u e. (v.indexed j u e).1))
          d

  channels_kept : (handle_squit s peer reason now time).world.by_channel ≡ s.world.by_channel
  channels_kept =
      ap (λ x. x.world.by_channel) handled
      ∙ lose_users-channels begun.world.by_id begun peer (reason_of reason) time
      ∙ ap (λ w. w.by_channel) begun-world

  pub seen_now :
      get (peer, reason_of reason) (handle_squit s peer reason now time).squit_seen
      ≡ some (now + squit_seen_ttl)
  seen_now =
      ap (λ x. get (peer, reason_of reason) x.squit_seen) handled
      ∙ ap (get (peer, reason_of reason))
          (lose_users-seen begun.world.by_id begun peer (reason_of reason) time)
      ∙ noted

-- HandleSquit of a named peer that the guard has not seen, on a reached world: each stored user
-- whose home is that peer is removed and every other one stays as it was; and no channel changes,
-- so that the users removed are still listed as members.
pub handle_squit_users :
    {m : CaseMapping} {k : ℕ} (s : Site) (peer reason : Bytes) (now : ℕ) (time : ℤ) (id : UserId)
    → Reach (new_world m k) s.world
    → Distinct s.world.by_id
    → is_empty peer ≡ false
    → Unseen s peer reason now
    → let s' = handle_squit s peer reason now time in
      (find_by_id s'.world id ≡ stays peer (find_by_id s.world id))
      × (s'.world.by_channel ≡ s.world.by_channel)
handle_squit_users s peer reason now time id r d full fresh = (
  users_left s peer reason now time full fresh id d (Reach-IsConsistent r),
  channels_kept s peer reason now time full fresh,
)
