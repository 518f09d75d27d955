-- ===== src/State/World/Users/Reach.antt =====
-- Every world that the methods can reach has consistent indexes, and what follows for a client.
use mathlib.Core.Path.{subst}
use ircat.Base.{
  ℕ, ◌+◌, ◌^◌, ◌<◌, ◌≡◌, refl, sym, ap, ◌∙◌, ◌↔◌, inl, inr, true, false, some, List, [], ◌∷◌, arith,
  if◌then◌else◌, Option-cases, is_some, Bytes, nat_eq, bytes_has_eq,
}
use ircat.Base.GoMap.{get, put, has}
use ircat.Base.Int.{ℤ}
use ircat.State.Casemap.{CaseMapping, fold, equal}
use ircat.State.Casemap.Folding.{equal_iff}
use ircat.State.Channel.{UserId, Channel}
use ircat.State.World.{
  User, World, is_empty, new_world, find_by_id, find_by_nick, add_user, remove_user, rename_user,
  join_channel, part_channel, leave, ok, err, nick_in_use, next_id, or_now, find_channel,
  ensure_channel,
}
use ircat.State.World.Users.{key_of, IsConsistent, new_world-IsConsistent, add_user-IsConsistent}
use ircat.State.World.Users.Leave.{remove_user-IsConsistent}
use ircat.State.World.Users.Rename.{rename_user-IsConsistent}

-- One call of a method, by any goroutine. The counter of IDs must not have run through 2^64.
pub data Step (w : World) : World → Type 0 where
  add : (u : User) (now : ℤ) → w.last_id + 1 < 2 ^ 64 → Step w (add_user w u now).0
  remove : (id : UserId) → Step w (remove_user w id).0
  rename : (id : UserId) (nick : Bytes) → Step w (rename_user w id nick).0
  join : (id : UserId) (name : Bytes) (now : ℤ) → Step w (join_channel w id name now).0
  part : (id : UserId) (name : Bytes) → Step w (part_channel w id name).0

pub data Reach (s : World) : World → Type 0 where
  here : Reach s s
  next : {t u : World} → Reach s t → Step t u → Reach s u

-- What holds of the user fields holds whatever the channels are.
any_channels :
    (w : World) (l : List (Bytes × Channel))
    → IsConsistent w
    → IsConsistent (record w { by_channel = l })
any_channels w l v = record { named = v.named; indexed = v.indexed; fresh = v.fresh }

keeps_users :
    (w x : World) → x ≡ record w { by_channel = x.by_channel } → IsConsistent w → IsConsistent x
keeps_users w x e v = subst IsConsistent (sym e) (any_channels w x.by_channel v)

ensure_channel_users :
    (w : World) (name : Bytes) (now : ℤ)
    → (ensure_channel w name now).0
      ≡ record w { by_channel = (ensure_channel w name now).0.by_channel }
unfolding ensure_channel
ensure_channel_users w name now = ground arith

join_channel_users :
    (w : World) (id : UserId) (name : Bytes) (now : ℤ)
    → (join_channel w id name now).0
      ≡ record w { by_channel = (join_channel w id name now).0.by_channel }
unfolding join_channel
join_channel_users w id name now = ground (arith, ensure_channel_users w name now)

leave_users :
    (w : World) (ch : Channel) (id : UserId) (name : Bytes)
    → (leave w ch id name).0 ≡ record w { by_channel = (leave w ch id name).0.by_channel }
unfolding leave
leave_users w ch id name = ground arith

part_channel_users :
    (w : World) (id : UserId) (name : Bytes)
    → (part_channel w id name).0 ≡ record w { by_channel = (part_channel w id name).0.by_channel }
unfolding part_channel
part_channel_users w id name = elim (Option-cases (find_channel w name)) [
  | inl t ↦ rw (t, part_channel)
  | inr (ch, t) ↦ rw (t, part_channel) (leave_users w ch id name)
]

Step-IsConsistent : {w x : World} → Step w x → IsConsistent w → IsConsistent x
Step-IsConsistent {w} (add u now room) v = add_user-IsConsistent w u now room v
Step-IsConsistent {w} (remove id) v = remove_user-IsConsistent w id v
Step-IsConsistent {w} (rename id nick) v = rename_user-IsConsistent w id nick v
Step-IsConsistent {w} (join id name now) v = keeps_users w _ (join_channel_users w id name now) v
Step-IsConsistent {w} (part id name) v = keeps_users w _ (part_channel_users w id name) v

-- The indexes agree in every world reached from a new one.
pub Reach-IsConsistent :
    {m : CaseMapping} {n : ℕ} {w : World} → Reach (new_world m n) w → IsConsistent w
Reach-IsConsistent {m} {n} here = new_world-IsConsistent m n
Reach-IsConsistent (next r s) = Step-IsConsistent s (Reach-IsConsistent r)

-- In every world that the calls AddUser, RemoveUser, RenameUser, JoinChannel and PartChannel reach
-- from a new one (before the counter of IDs passes 2^64), two stored users whose nicks `Equal`
-- identifies are the same user.
pub nick_unique :
    {m : CaseMapping} {n : ℕ} {w : World} (a b : UserId) (x y : User)
    → Reach (new_world m n) w
    → find_by_id w a ≡ some x
    → find_by_id w b ≡ some y
    → equal w.mapping x.nick y.nick ≡ true
    → a ≡ b
unfolding find_by_id
nick_unique {w = w} a b x y r hx hy e =
    let v = Reach-IsConsistent r in
    let same : key_of w x ≡ key_of w y = (equal_iff w.mapping x.nick y.nick).0 e in
    let (at_a, _, _) = v.indexed a x hx in
    let (at_b, _, _) = v.indexed b y hy in cc (same, at_a, at_b)

fold-is_empty : (m : CaseMapping) (a b : Bytes) → fold m a ≡ fold m b → is_empty a ≡ is_empty b
unfolding fold
fold-is_empty m [] [] h = refl
fold-is_empty m (x ∷ a) (y ∷ b) h = refl
fold-is_empty m a b h = cc

module _ {w : World} (v : IsConsistent w) (nick : Bytes) where
  found_by_nick :
      (u : User)
      → find_by_nick w nick ≡ some u
      → (get u.id w.by_id ≡ some u) × (equal w.mapping u.nick nick ≡ true)
  unfolding find_by_nick
  found_by_nick u h = elim (Option-cases (get (fold w.mapping nick) w.by_nick)) [
    | inl e ↦ ground arith
    | inr (id, e) ↦
        let at_id : get id w.by_id ≡ some u = ground arith in
        let (x, there, named) = v.named (fold w.mapping nick) id e in
        let same : x ≡ u = cc in
        let mine = v.indexed id u at_id in
        (ground arith, (equal_iff w.mapping u.nick nick).1 (ap (key_of w) (sym same) ∙ named))
  ]

  found_if_equal :
      (u : User)
      → get u.id w.by_id ≡ some u
      → equal w.mapping u.nick nick ≡ true
      → find_by_nick w nick ≡ some u
  unfolding find_by_nick
  found_if_equal u h e =
      let same : fold w.mapping u.nick ≡ fold w.mapping nick =
        (equal_iff w.mapping u.nick nick).0 e in
      let mine = v.indexed u.id u h in ground (arith, fold-is_empty w.mapping u.nick nick same)

  pub taken_iff :
      is_empty nick ≡ false → (has (fold w.mapping nick) w.by_nick ≡ is_some (find_by_nick w nick))
  unfolding find_by_nick
  taken_iff ne = elim (Option-cases (get (fold w.mapping nick) w.by_nick)) [
    | inl e ↦ ground arith
    | inr (id, e) ↦ let (x, there, named) = v.named (fold w.mapping nick) id e in ground arith
  ]

-- In a reached world FindByNick gives a user exactly when that user is stored under its ID and
-- `Equal` identifies its nick with the one asked for.
pub find_by_nick_iff :
    {m : CaseMapping} {n : ℕ} {w : World} (nick : Bytes) (u : User)
    → Reach (new_world m n) w
    → (find_by_nick w nick ≡ some u)
      ↔ ((find_by_id w u.id ≡ some u) × (equal w.mapping u.nick nick ≡ true))
unfolding find_by_id
find_by_nick_iff nick u r =
    let v = Reach-IsConsistent r in (found_by_nick v nick u, (λ h. found_if_equal v nick u h.0 h.1))

-- In a reached world, adding a user whose nick is not empty is refused exactly when FindByNick
-- finds the nick, and then changes nothing; otherwise the user is stored under the next ID and its
-- nick indexed.
pub add_user_taken :
    {m : CaseMapping} {n : ℕ} {w : World} (u : User) (now : ℤ)
    → Reach (new_world m n) w
    → is_empty u.nick ≡ false
    → add_user w u now ≡ (
        if is_some (find_by_nick w u.nick) then (w, err nick_in_use) else (
          record w {
            by_nick = put (key_of w u) (next_id w) w.by_nick;
            by_id =
                put
                  (next_id w)
                  (record u { id = next_id w; connect_at = or_now u.connect_at now })
                  w.by_id;
            last_id = next_id w;
          },
          ok (next_id w),
        ))
unfolding add_user
add_user_taken u now r ne = rw (ne, taken_iff (Reach-IsConsistent r) u.nick ne)
