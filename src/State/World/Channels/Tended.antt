-- ===== src/State/World/Channels/Tended.antt =====
-- Which channels the world holds, whatever users and channels come and go.
use mathlib.Core.Path.{subst}
use ircat.Base.{
  ℕ, ◌≡◌, refl, sym, ap, ◌∙◌, ◌⊎◌, inl, inr, Bool, true, false, some, [], ◌∷◌, arith, Bool-cases,
  Option-cases, Bytes, nat_eq, bytes_has_eq,
}
use ircat.Base.GoMap.{get, put, has, get-put, get-erase, put_inv}
use ircat.Base.Int.{ℤ}
use ircat.State.Casemap.{CaseMapping, rfc1459, ascii, fold, fold_byte}
use ircat.State.Channel.{UserId, Channel, new_channel, is_member, remove_member}
use ircat.State.World.{
  World, User, find_channel, ensure_channel, store_channel, is_safe_name, no_members, enter,
  join_channel, drop_channel, leave, part_channel, new_world, add_user, remove_user, rename_user,
}
use ircat.State.World.Channels.Leave.{without, dies, part_channel_errors}
use ircat.State.World.Channels.{has-ne-empty, enter_lem}
use ircat.State.World.Users.Reach.{Step, Reach, add, remove, rename, join, part, here, next}

-- The index files a channel under its folded name, and holds no empty channel that a part would
-- have dropped.
pub record IsTended (w : World) : Type 0 where
  pub filed : (k : Bytes) (ch : Channel) → get k w.by_channel ≡ some ch → fold w.mapping ch.name ≡ k
  pub alive : (k : Bytes) (ch : Channel) → get k w.by_channel ≡ some ch → dies ch.name ch ≡ false

is_safe_name-fold :
    (m : CaseMapping) (name : Bytes) → is_safe_name (fold m name) ≡ is_safe_name name
unfolding fold fold_byte
is_safe_name-fold rfc1459 [] = refl
is_safe_name-fold ascii [] = refl
is_safe_name-fold rfc1459 (b ∷ name) = ground arith
is_safe_name-fold ascii (b ∷ name) = ground arith

same_safety :
    (m : CaseMapping) (a b : Bytes) → fold m a ≡ fold m b → is_safe_name a ≡ is_safe_name b
same_safety m a b h = sym (is_safe_name-fold m a) ∙ ap is_safe_name h ∙ is_safe_name-fold m b

-- A channel stored under its name, alive, keeps the index tended.
store-IsTended :
    (w : World) (name : Bytes) (ch : Channel)
    → fold w.mapping ch.name ≡ fold w.mapping name
    → dies ch.name ch ≡ false
    → IsTended w
    → IsTended (store_channel w name ch)
store-IsTended w name ch file live v = record {
  filed = λ k x h. elim (put_inv (fold w.mapping name) k w.by_channel ch h) [
    | inl (e, p) ↦ rw (← p, ← e) file
    | inr old ↦ v.filed k x old
  ];
  alive = λ k x h. elim (put_inv (fold w.mapping name) k w.by_channel ch h) [
    | inl (e, p) ↦ rw (← p) live
    | inr old ↦ v.alive k x old
  ];
}

-- The channels of `x` are among those of `w`.
shrink-IsTended :
    (w x : World)
    → x.mapping ≡ w.mapping
    → ((k : Bytes) (ch : Channel) → get k x.by_channel ≡ some ch → get k w.by_channel ≡ some ch)
    → IsTended w
    → IsTended x
shrink-IsTended w x m sub v = record {
  filed = λ k ch h. rw m (v.filed k ch (sub k ch h));
  alive = λ k ch h. v.alive k ch (sub k ch h);
}

new_channel_name : (name : Bytes) (now : ℤ) → (new_channel name now).name ≡ name
unfolding new_channel
new_channel_name name now = refl

enter-alive :
    (ch : Channel) (id : UserId) (name : Bytes) (created : Bool)
    → dies (enter ch id name created).0.name (enter ch id name created).0 ≡ false
enter-alive ch id name created =
    let r = enter ch id name created in
    let full = has-ne-empty id r.0 (ground (arith, enter_lem ch id name created)) in rw full

join_channel-IsTended :
    (w : World) (id : UserId) (name : Bytes) (now : ℤ)
    → IsTended w
    → IsTended (join_channel w id name now).0
unfolding join_channel ensure_channel
join_channel-IsTended w id name now v = elim (Bool-cases (has id w.by_id)) [
  | inr e ↦ rw e v
  | inl e ↦ elim (Option-cases (get (fold w.mapping name) w.by_channel)) [
    | inl t ↦
        let ch = new_channel name now in
        let r = enter ch id name true in
        let file : fold w.mapping r.0.name ≡ fold w.mapping name =
          ap (fold w.mapping) ((enter_lem ch id name true).1 ∙ new_channel_name name now) in
        rw (e, t, ensure_channel)
          (shrink-IsTended (store_channel w name r.0) _ refl
            (λ k x h. ground (
              arith,
              get-put (fold w.mapping name) k r.0 w.by_channel,
              get-put (fold w.mapping name) k r.0 (put (fold w.mapping name) ch w.by_channel),
              get-put (fold w.mapping name) k ch w.by_channel,
            ))
            (store-IsTended w name r.0 file (enter-alive ch id name true) v))
    | inr (ch, t) ↦
        let r = enter ch id name false in
        let file : fold w.mapping r.0.name ≡ fold w.mapping name =
          ap (fold w.mapping) (enter_lem ch id name false).1 ∙ v.filed _ ch t in
        rw (e, t, ensure_channel) (store-IsTended w name r.0 file (enter-alive ch id name false) v)
  ]
]

module _ (w : World) (ch : Channel) (id : UserId) (name : Bytes) (v : IsTended w)
    (found : get (fold w.mapping name) w.by_channel ≡ some ch)
    (member : is_member ch id ≡ true) where
  left_name : (without ch id).name ≡ ch.name
  unfolding remove_member
  left_name = ground arith

  left_file : fold w.mapping (without ch id).name ≡ fold w.mapping name
  left_file = ap (fold w.mapping) left_name ∙ v.filed _ ch found

  left_alive : dies name (without ch id) ≡ false → dies (without ch id).name (without ch id) ≡ false
  left_alive h = rw (same_safety w.mapping (without ch id).name name left_file) h

  leave_dead :
      dies name (without ch id) ≡ true
      → (leave w ch id name).0 ≡ drop_channel (store_channel w name (without ch id)) name
  unfolding leave remove_member
  leave_dead h = ground arith

  leave_alive :
      dies name (without ch id) ≡ false
      → (leave w ch id name).0 ≡ store_channel w name (without ch id)
  unfolding leave remove_member
  leave_alive h = ground arith

  leave-IsTended : IsTended (leave w ch id name).0
  leave-IsTended = elim (Bool-cases (dies name (without ch id))) [
    | inl e ↦ subst IsTended (sym (leave_dead e)) (
        unfold drop_channel in
        shrink-IsTended w _ refl
          (λ k x h. ground (
            arith,
            get-put (fold w.mapping name) k (without ch id) w.by_channel,
            get-erase (fold w.mapping name) k
                (put (fold w.mapping name) (without ch id) w.by_channel),
          ))
          v)
    | inr e ↦
        subst IsTended (sym (leave_alive e))
          (store-IsTended w name (without ch id) left_file (left_alive e) v)
  ]

part_channel-IsTended :
    (w : World) (id : UserId) (name : Bytes) → IsTended w → IsTended (part_channel w id name).0
unfolding part_channel find_channel
part_channel-IsTended w id name v = elim (Option-cases (find_channel w name)) [
  | inl e ↦ rw (e, part_channel) v
  | inr (ch, e) ↦ elim (Bool-cases (is_member ch id)) [
    | inl m ↦ rw (e, part_channel) (leave-IsTended w ch id name v (ground arith) m)
    | inr m ↦ rw ((part_channel_errors w id name).1 ch e m) v
  ]
]

same_channels-IsTended :
    (w x : World)
    → (x.mapping ≡ w.mapping) × (x.by_channel ≡ w.by_channel)
    → IsTended w
    → IsTended x
same_channels-IsTended w x (m, e) v = shrink-IsTended w x m (λ k ch h. rw e at h) v

add_user_channels :
    (w : World) (u : User) (now : ℤ)
    → ((add_user w u now).0.mapping ≡ w.mapping) × ((add_user w u now).0.by_channel ≡ w.by_channel)
unfolding add_user
add_user_channels w u now = ground arith

remove_user_channels :
    (w : World) (id : UserId)
    → ((remove_user w id).0.mapping ≡ w.mapping) × ((remove_user w id).0.by_channel ≡ w.by_channel)
unfolding remove_user
remove_user_channels w id = ground arith

rename_user_channels :
    (w : World) (id : UserId) (nick : Bytes)
    → ((rename_user w id nick).0.mapping ≡ w.mapping)
      × ((rename_user w id nick).0.by_channel ≡ w.by_channel)
unfolding rename_user
rename_user_channels w id nick = ground arith

Step-IsTended : {w x : World} → Step w x → IsTended w → IsTended x
Step-IsTended {w} (add u now room) v = same_channels-IsTended w _ (add_user_channels w u now) v
Step-IsTended {w} (remove id) v = same_channels-IsTended w _ (remove_user_channels w id) v
Step-IsTended {w} (rename id nick) v = same_channels-IsTended w _ (rename_user_channels w id nick) v
Step-IsTended {w} (join id name now) v = join_channel-IsTended w id name now v
Step-IsTended {w} (part id name) v = part_channel-IsTended w id name v

pub Reach-IsTended : {m : CaseMapping} {n : ℕ} {w : World} → Reach (new_world m n) w → IsTended w
unfolding get
Reach-IsTended here = record { filed = λ k ch h. cc; alive = λ k ch h. cc }
Reach-IsTended (next r s) = Step-IsTended s (Reach-IsTended r)

-- In such a reached world a channel that a name finds is filed under the folding of that name, and
-- has a member unless it is a safe channel with +r.
pub found_channel_alive :
    {m : CaseMapping} {n : ℕ} {w : World} (name : Bytes) (ch : Channel)
    → Reach (new_world m n) w
    → find_channel w name ≡ some ch
    → (fold w.mapping ch.name ≡ fold w.mapping name)
      × ((no_members ch ≡ false) ⊎ ((is_safe_name name ≡ true) × (ch.modes.server_reop ≡ true)))
unfolding find_channel
found_channel_alive {w = w} name ch r h =
    let v = Reach-IsTended r in
    let at_key : get (fold w.mapping name) w.by_channel ≡ some ch = ground arith in
    let file = v.filed (fold w.mapping name) ch at_key in
    let live = v.alive (fold w.mapping name) ch at_key in
    (file, ground (arith, same_safety w.mapping ch.name name file))
