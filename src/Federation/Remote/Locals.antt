-- ===== src/Federation/Remote/Locals.antt =====
-- What a peer can do to the users of this node.
use ircat.Base.{
  ℕ, ◌+◌, ◌^◌, ◌<◌, ◌≡◌, refl, sym, ap, ◌∙◌, inl, inr, true, false, ◌||◌, Option, none, some, List,
  [], ◌∷◌, arith, ◌==◌, ==_iff, Bool-cases, Option-cases, Bytes, bytes_eq, bytes_eq_iff, nat_eq,
  bytes_has_eq,
}
use ircat.Base.GoMap.{get, get-put, Distinct}
use ircat.Base.Int.{ℤ}
use ircat.State.Casemap.{fold}
use ircat.Server.Atoi.{atoi}
use ircat.State.Channel.{UserId, Channel}
use ircat.State.World.{
  World, User, is_empty, is_remote, find_by_nick, find_by_id, find_channel, next_id, or_now,
  add_user, remove_user, rename_user, join_channel, ensure_channel,
}
use ircat.State.World.Users.{IsConsistent}
use ircat.State.World.Users.Leave.{get-remove_user}
use ircat.Server.Channels.Commands.Leaving.{part_channel-by_id}
use ircat.Protocol.Message.{Message}
use ircat.Server.Federation.{
  Site, deliver_local, drop_local_user, subscribe_peer_to_channel, squit_seen_recently,
  squit_key_eq,
}
use ircat.Server.Federation.Sends.{deliver_local-world}
use ircat.Server.Federation.Forward.{handle_squit}
use ircat.Server.Federation.Squit.{Unseen, stays, reason_of, users_left, handle_squit-dropped}
use ircat.Federation.Link.{Link, Node}
use ircat.Federation.Nick.{sender_from_prefix, rename_found}
use ircat.Federation.Nick.Dropped.{found_facts}
use ircat.Federation.Remote.{
  set_world, on_remote, service_params, handle_remote_service, handle_remote_quit, adopt_found,
  adopt_read, adopt_param, join_params, handle_remote_join, part_params, handle_remote_part,
  kick_params, handle_remote_kick, topic_params, handle_remote_topic, mode_of_found, mode_params,
  handle_remote_mode, kill_params, handle_remote_kill, squit_params, handle_remote_squit,
}

join_channel-by_id :
    (w : World) (id : UserId) (name : Bytes) (now : ℤ)
    → (join_channel w id name now).0.by_id ≡ w.by_id
unfolding join_channel ensure_channel
join_channel-by_id w id name now = elim (Option-cases (get (fold w.mapping name) w.by_channel)) [
  | inl e ↦ rw (join_channel, ensure_channel, e) (ground arith)
  | inr (ch, e) ↦ rw (join_channel, ensure_channel, e) (ground arith)
]

-- The home of a user of this node is empty, and no peer's name.
home_differs :
    (u : User) (peer : Bytes)
    → is_remote u ≡ false
    → is_empty peer ≡ false
    → bytes_eq u.home_server peer ≡ false
unfolding is_remote
home_differs u peer here full = ground (arith, bytes_eq_iff u.home_server peer)

pub subscribed-world :
    (s : Site) (peer name : Bytes) → (subscribe_peer_to_channel s peer name).world ≡ s.world
unfolding subscribe_peer_to_channel
subscribed-world s peer name = ground arith

adopt_param-by_id :
    (w : World) (name : Bytes) (ps : List Bytes) → (adopt_param w name ps).by_id ≡ w.by_id
unfolding adopt_param
adopt_param-by_id w name [] = refl
adopt_param-by_id w name (ts ∷ _) = read (atoi ts)
  where
    found : (n : ℤ) (o : Option Channel) → (adopt_found w name n o).by_id ≡ w.by_id
    found n none = refl
    found n (some ch) = refl

    read : (o : Option ℤ) → (adopt_read w name o).by_id ≡ w.by_id
    read none = refl
    read (some n) = ground (arith, found n (find_channel w name))

-- A user of this node, on a consistent world.
module _ (w : World) (v : IsConsistent w) (id : UserId) (u : User) (there : get id w.by_id ≡ some u)
    (here : is_remote u ≡ false) where
  other_id :
      (nick : Bytes) (x : User)
      → find_by_nick w nick ≡ some x
      → is_remote x ≡ true
      → x.id == id ≡ false
  other_id nick x found far = ground (arith, (found_facts w v nick x found).1, ==_iff x.id id)

  remove_user-kept :
      (nick : Bytes) (x : User)
      → find_by_nick w nick ≡ some x
      → is_remote x ≡ true
      → get id (remove_user w x.id).0.by_id ≡ get id w.by_id
  remove_user-kept nick x found far =
      get-remove_user w x.id id ∙ rw (other_id nick x found far) refl

  rename_user-kept :
      (nick new_nick : Bytes) (x : User)
      → find_by_nick w nick ≡ some x
      → is_remote x ≡ true
      → get id (rename_user w x.id new_nick).0.by_id ≡ get id w.by_id
  unfolding rename_user
  rename_user-kept nick new_nick x found far =
      let other = other_id nick x found far in
      ground (
        arith,
        found_facts w v nick x found,
        get-put x.id id (record x { nick = new_nick }) w.by_id,
      )

  pub add_user-kept :
      (x : User) (now : ℤ)
      → w.last_id + 1 < 2 ^ 64
      → get id (add_user w x now).0.by_id ≡ get id w.by_id
  unfolding add_user
  add_user-kept x now room = ground (
    arith,
    get-put (next_id w) id (record x { id = next_id w; connect_at = or_now x.connect_at now })
        w.by_id,
    v.fresh id u there,
    ==_iff (next_id w) id,
  )

module _ (s : Site) (v : IsConsistent s.world) (id : UserId) (u : User)
    (there : get id s.world.by_id ≡ some u) (here : is_remote u ≡ false) where
  -- The user with the ID is stored as before.
  abbrev pub Kept : Site → Type 0
  Kept s' = get id s'.world.by_id ≡ get id s.world.by_id

  pub delivered-Kept : (m : Message) → Kept (deliver_local s m)
  delivered-Kept m = ap (λ w. get id w.by_id) (deliver_local-world s m)

  on_remote-Kept :
      (nick : Bytes) (f : User → Site)
      → ((x : User) → find_by_nick s.world nick ≡ some x → is_remote x ≡ true → Kept (f x))
      → Kept (on_remote s (find_by_nick s.world nick) f)
  on_remote-Kept nick f k = by_found (find_by_nick s.world nick) refl
    where
      by_found : (o : Option User) → find_by_nick s.world nick ≡ o → Kept (on_remote s o f)
      by_found none e = refl
      by_found (some x) e = elim (Bool-cases (is_remote x)) [
        | inl far ↦ rw far (k x e far)
        | inr near ↦ rw near refl
      ]

  pub quit-Kept : (m : Message) → Kept (handle_remote_quit s m)
  unfolding handle_remote_quit
  quit-Kept m = on_remote-Kept (sender_from_prefix m.prefix) _ λ x found far.
      rw (deliver_local-world s m)
        (remove_user-kept s.world v id u there here (sender_from_prefix m.prefix) x found far)

  pub join-Kept : (l : Link) (m : Message) (now : ℤ) → Kept (handle_remote_join l s m now)
  unfolding handle_remote_join join_params subscribe_peer_to_channel
  join-Kept l m now = by_params m.params
    where
      by_params : (ps : List Bytes) → Kept (join_params l s m ps now)
      by_params [] = refl
      by_params (name ∷ rest) = on_remote-Kept (sender_from_prefix m.prefix) _ λ x found far.
          let w = (join_channel s.world x.id name now).0 in
          ap (λ z. get id z.by_id)
            (deliver_local-world _ m
              ∙ subscribed-world (set_world s (adopt_param w name rest)) l.peer_name name)
          ∙ ap (get id) (adopt_param-by_id w name rest ∙ join_channel-by_id s.world x.id name now)

  pub part-Kept : (m : Message) → Kept (handle_remote_part s m)
  unfolding handle_remote_part part_params
  part-Kept m = by_params m.params
    where
      by_params : (ps : List Bytes) → Kept (part_params s m ps)
      by_params [] = refl
      by_params (name ∷ _) = on_remote-Kept (sender_from_prefix m.prefix) _ λ x found far.
          rw (deliver_local-world s m) (ap (get id) (part_channel-by_id s.world x.id name))

  pub kick-Kept : (m : Message) → Kept (handle_remote_kick s m)
  unfolding handle_remote_kick kick_params
  kick-Kept m = by_params m.params
    where
      by_params : (ps : List Bytes) → Kept (kick_params s m ps)
      by_params (name ∷ victim ∷ _) = elim (Option-cases (find_by_nick s.world victim)) [
        | inl e ↦ rw (kick_params, e) refl
        | inr (x, e) ↦
            rw (kick_params, e, deliver_local-world s m)
              (ap (get id) (part_channel-by_id s.world x.id name))
      ]
      by_params ps = refl

  pub topic-Kept : (m : Message) (now : ℤ) → Kept (handle_remote_topic s m now)
  unfolding handle_remote_topic topic_params
  topic-Kept m now = by_params m.params
    where
      by_params : (ps : List Bytes) → Kept (topic_params s m ps now)
      by_params (name ∷ text ∷ _) = elim (Option-cases (find_channel s.world name)) [
        | inl e ↦ rw (topic_params, e) refl
        | inr (ch, e) ↦ rw (topic_params, e) (ap (λ w. get id w.by_id) (deliver_local-world _ m))
      ]
      by_params ps = refl

  pub mode-Kept : (m : Message) (now : ℤ) → Kept (handle_remote_mode s m now)
  unfolding handle_remote_mode mode_params
  mode-Kept m now = by_params m.params
    where
      of_found :
          (name : Bytes) (rest : List Bytes) (o : Option Channel)
          → Kept (mode_of_found s m name rest now o)
      of_found name rest none = refl
      of_found name rest (some ch) = ap (λ w. get id w.by_id) (deliver_local-world _ m)

      by_params : (ps : List Bytes) → Kept (mode_params s m ps now)
      by_params (target ∷ word ∷ args) =
          ground
            (arith, delivered-Kept m, of_found target (word ∷ args) (find_channel s.world target))
      by_params ps = refl

  pub kill-Kept : (m : Message) → Kept (handle_remote_kill s m)
  unfolding handle_remote_kill kill_params drop_local_user
  kill-Kept m = by_params m.params
    where
      by_params : (ps : List Bytes) → Kept (kill_params s m ps)
      by_params (nick ∷ reason ∷ _) = elim (Option-cases (find_by_nick s.world nick)) [
        | inl e ↦ rw (kill_params, e) refl
        | inr (x, e) ↦ elim (Bool-cases (is_remote x)) [
          | inl far ↦
              rw (kill_params, e, far, deliver_local-world s _)
                (remove_user-kept s.world v id u there here nick x e far)
          | inr near ↦ rw (kill_params, e, near) (delivered-Kept _)
        ]
      ]
      by_params ps = refl

  pub service-Kept :
      (l : Link) (m : Message) (now : ℤ)
      → s.world.last_id + 1 < 2 ^ 64
      → Kept (handle_remote_service l s m now)
  unfolding handle_remote_service service_params
  service-Kept l m now room = by_params _ m.params
    where
      by_params : (server : Bytes) (ps : List Bytes) → Kept (service_params s server ps now)
      by_params server (name ∷ _ ∷ distribution ∷ stype ∷ _ ∷ info ∷ _) =
          elim (Option-cases (find_by_nick s.world name)) [
            | inl e ↦ rw (service_params, e) (add_user-kept s.world v id u there here _ now room)
            | inr (x, e) ↦ rw (service_params, e) refl
          ]
      by_params server ps = refl

  pub squit-Kept :
      (m : Message) (now : ℕ) (time : ℤ)
      → Distinct s.world.by_id
      → Kept (handle_remote_squit s m now time)
  unfolding handle_remote_squit squit_params find_by_id
  squit-Kept m now time d = by_params m.params
    where
      of_peer : (peer reason : Bytes) → Kept (handle_squit s peer reason now time)
      of_peer peer reason =
          elim (Bool-cases
            (is_empty peer || (squit_seen_recently s (peer, reason_of reason) now).1)) [
              | inl e ↦ ap (λ w. get id w.by_id) (handle_squit-dropped s peer reason now time e)
              | inr e ↦
                  let full : is_empty peer ≡ false = ground arith in
                  let fresh : Unseen s peer reason now = ground arith in
                  users_left s peer reason now time full fresh id d v
                  ∙ ap (stays peer) there
                  ∙ rw (home_differs u peer here full) (sym there)
            ]

      by_params : (ps : List Bytes) → Kept (squit_params s ps now time)
      by_params [] = refl
      by_params (peer ∷ []) = of_peer peer []
      by_params (peer ∷ reason ∷ _) = of_peer peer reason

  pub rename-Kept :
      (l : Link) (m : Message) (nick : Bytes)
      → let n : Node = record { link = l; site = s } in
        Kept (rename_found n m nick (find_by_nick s.world (sender_from_prefix m.prefix))).site
  rename-Kept l m nick = by_found (find_by_nick s.world (sender_from_prefix m.prefix)) refl
    where
      by_found :
          (o : Option User)
          → find_by_nick s.world (sender_from_prefix m.prefix) ≡ o
          → let n : Node = record { link = l; site = s } in Kept (rename_found n m nick o).site
      by_found none e = refl
      by_found (some x) e = elim (Bool-cases (is_remote x)) [
        | inl far ↦
            rw (far, deliver_local-world s m)
              (rename_user-kept s.world v id u there here (sender_from_prefix m.prefix) nick x e
                far)
        | inr near ↦ rw near refl
      ]
