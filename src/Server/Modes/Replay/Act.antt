-- ===== src/Server/Modes/Replay/Act.antt =====
-- One mode character, met again with the parameters that it showed.
use ircat.Base.{
  ℕ, ◌≡◌, refl, ap, Bool, true, false, Option, none, some, List, [], ◌∷◌, ◌++◌, arith, ◌==◌,
  if◌then◌else◌, Bytes,
}
use ircat.Base.Int.{ℤ, pos, ltb_ℤ}
use ircat.State.Membership.{Membership, member_op, member_voice}
use ircat.State.Channel.{Channel, UserId, is_member, add_membership, remove_membership}
use ircat.State.Channel.Modes.{set_bool_mode, set_key, set_limit}
use ircat.State.Channel.Masks.{
  add_ban, remove_ban, add_exception, remove_exception, add_invex, remove_invex, add_quiet,
  remove_quiet,
}
use ircat.State.World.{World, User, is_safe_name, find_by_nick}
use ircat.Server.Atoi.{atoi}
use ircat.Server.Modes.{
  ModeKind, Acted, act, key_on, limit_on, limit_at, limit_read, target_flag, found_flag,
  member_changed, member_flag, mask_list, bounce, if_changed,
}

-- A user that some nick finds is found by its own.
abbrev pub Finds : World → Type 0
Finds w = (arg : Bytes) (u : User) → find_by_nick w arg ≡ some u → find_by_nick w u.nick ≡ some u

-- One character either left the channel alone, or does the same with the parameters it showed.
abbrev pub Again : (List Bytes → Acted) → Channel → Option (List Bytes) → Channel → Type 0
Again f c none c' = c' ≡ c
Again f c (some ps) c' =
    (rest : List Bytes)
    → f (ps ++ rest) ≡ record { channel = c'; args = rest; shown = some ps; bad = false }

abbrev pub Replays : (List Bytes → Acted) → Channel → Acted → Type 0
Replays f c a = Again f c a.shown a.channel

-- An operation that reports no change made none.
abbrev IsHonest : Channel → Channel × Bool → Type 0
IsHonest c (c', changed) = changed ≡ false → c' ≡ c

if_changed-Replays :
    (f : List Bytes → Acted) (c : Channel) (p : Channel × Bool) (args ps : List Bytes)
    → IsHonest c p
    → ((rest : List Bytes) → f (ps ++ rest) ≡ if_changed p rest ps)
    → Replays f c (if_changed p args ps)
if_changed-Replays f c (c', false) args ps h g = h refl
if_changed-Replays f c (c', true) args ps h g = g

set_bool_mode-IsHonest : (c : Channel) (mc : ℕ) (on : Bool) → IsHonest c (set_bool_mode c mc on)
unfolding set_bool_mode
set_bool_mode-IsHonest c mc on h = ground arith

set_key-IsHonest : (c : Channel) (k : Bytes) → IsHonest c (set_key c k)
unfolding set_key
set_key-IsHonest c k h = ground arith

set_limit-IsHonest : (c : Channel) (n : ℤ) → IsHonest c (set_limit c n)
unfolding set_limit
set_limit-IsHonest c n h = ground arith

member_changed-IsHonest :
    (on : Bool) (c : Channel) (id : UserId) (f : Membership) → IsHonest c (member_changed on c id f)
unfolding add_membership remove_membership
member_changed-IsHonest true c id f h = ground arith
member_changed-IsHonest false c id f h = ground arith

module _ (now : ℤ) (c : Channel) (mask : Bytes) where
  ban-IsHonest : (on : Bool) → IsHonest c (if on then add_ban c mask now else remove_ban c mask)
  unfolding add_ban remove_ban
  ban-IsHonest true h = ground arith
  ban-IsHonest false h = ground arith

  exception-IsHonest :
      (on : Bool) → IsHonest c (if on then add_exception c mask now else remove_exception c mask)
  unfolding add_exception remove_exception
  exception-IsHonest true h = ground arith
  exception-IsHonest false h = ground arith

  invex-IsHonest :
      (on : Bool) → IsHonest c (if on then add_invex c mask now else remove_invex c mask)
  unfolding add_invex remove_invex
  invex-IsHonest true h = ground arith
  invex-IsHonest false h = ground arith

  quiet-IsHonest :
      (on : Bool) → IsHonest c (if on then add_quiet c mask now else remove_quiet c mask)
  unfolding add_quiet remove_quiet
  quiet-IsHonest true h = ground arith
  quiet-IsHonest false h = ground arith

mask_list-Replays :
    (on : Bool) (add remove : Channel → Bytes → Channel × Bool) (c : Channel) (args : List Bytes)
    → ((mask : Bytes) → IsHonest c (if on then add c mask else remove c mask))
    → Replays (mask_list on add remove c) c (mask_list on add remove c args)
unfolding mask_list
mask_list-Replays on add remove c [] h = refl
mask_list-Replays on add remove c ([] ∷ args) h = refl
mask_list-Replays on add remove c ((x ∷ mask) ∷ args) h =
    if_changed-Replays (mask_list on add remove c) c
      (if on then add c (x ∷ mask) else remove c (x ∷ mask)) args ((x ∷ mask) ∷ []) (h (x ∷ mask))
      (λ rest. refl)

key_on-Replays : (c : Channel) (args : List Bytes) → Replays (key_on c) c (key_on c args)
unfolding key_on
key_on-Replays c [] = refl
key_on-Replays c ([] ∷ args) = refl
key_on-Replays c ((x ∷ k) ∷ args) =
    if_changed-Replays (key_on c) c (set_key c (x ∷ k)) args ((x ∷ k) ∷ [])
      (set_key-IsHonest c (x ∷ k)) (λ rest. refl)

limit_at-Replays :
    (c : Channel) (raw : Bytes) (args : List Bytes) (n : ℤ) (b : Bool)
    → ((rest : List Bytes) → limit_on c (raw ∷ rest) ≡ limit_at c raw rest n b)
    → Replays (limit_on c) c (limit_at c raw args n b)
limit_at-Replays c raw args n true g = refl
limit_at-Replays c raw args n false g =
    if_changed-Replays (limit_on c) c (set_limit c n) args (raw ∷ []) (set_limit-IsHonest c n) g

limit_read-Replays :
    (c : Channel) (raw : Bytes) (args : List Bytes) (o : Option ℤ)
    → ((rest : List Bytes) → limit_on c (raw ∷ rest) ≡ limit_read c raw rest o)
    → Replays (limit_on c) c (limit_read c raw args o)
limit_read-Replays c raw args none g = refl
limit_read-Replays c raw args (some n) g = limit_at-Replays c raw args n (ltb_ℤ n (pos 0)) g

limit_on-Replays : (c : Channel) (args : List Bytes) → Replays (limit_on c) c (limit_on c args)
unfolding limit_on
limit_on-Replays c [] = refl
limit_on-Replays c (raw ∷ args) = limit_read-Replays c raw args (atoi raw) (λ rest. refl)

module _ (w : World) (on : Bool) (flag : Membership) (c : Channel) (h : Finds w) where
  target_flag-Replays :
      (args : List Bytes) (u : User) (b : Bool)
      → ((rest : List Bytes)
          → member_flag w on flag c (u.nick ∷ rest) ≡ target_flag on flag c rest u b)
      → Replays (member_flag w on flag c) c (target_flag on flag c args u b)
  target_flag-Replays args u false g = refl
  target_flag-Replays args u true g =
      if_changed-Replays (member_flag w on flag c) c (member_changed on c u.id flag) args
        (u.nick ∷ []) (member_changed-IsHonest on c u.id flag) g

  again_by_nick :
      (u : User) (rest : List Bytes)
      → find_by_nick w u.nick ≡ some u
      → member_flag w on flag c (u.nick ∷ rest) ≡ target_flag on flag c rest u (is_member c u.id)
  unfolding member_flag
  again_by_nick u rest e = ap (found_flag on flag c rest) e

  found_flag-Replays :
      (arg : Bytes) (args : List Bytes) (o : Option User)
      → find_by_nick w arg ≡ o
      → Replays (member_flag w on flag c) c (found_flag on flag c args o)
  found_flag-Replays arg args none e = refl
  found_flag-Replays arg args (some u) e =
      target_flag-Replays args u (is_member c u.id) (λ rest. again_by_nick u rest (h arg u e))

  member_flag-Replays :
      (args : List Bytes) → Replays (member_flag w on flag c) c (member_flag w on flag c args)
  unfolding member_flag
  member_flag-Replays [] = refl
  member_flag-Replays (arg ∷ args) = found_flag-Replays arg args (find_by_nick w arg) refl

branch-Replays :
    (b : Bool) (f g : List Bytes → Acted) (c : Channel) (args : List Bytes)
    → Replays f c (f args)
    → Replays g c (g args)
    → Replays (λ l. if b then f l else g l) c (if b then f args else g args)
branch-Replays true f g c args hf hg = hf
branch-Replays false f g c args hf hg = hg

plain-Replays :
    (mc : ℕ) (on : Bool) (c : Channel) (args : List Bytes)
    → Replays
        (λ l. if_changed (set_bool_mode c mc on) l [])
        c
        (if_changed (set_bool_mode c mc on) args [])
plain-Replays mc on c args =
    if_changed-Replays (λ l. if_changed (set_bool_mode c mc on) l []) c (set_bool_mode c mc on) args
      [] (set_bool_mode-IsHonest c mc on) (λ rest. refl)

pub act-Replays :
    (w : World) (now : ℤ) (k : ModeKind) (mc dir : ℕ) (c : Channel) (args : List Bytes)
    → Finds w
    → Replays (act w now k mc dir c) c (act w now k mc dir c args)
unfolding act
act-Replays w now ModeKind.plain mc dir c args h = plain-Replays mc (dir == b'+') c args
act-Replays w now ModeKind.reop mc dir c args h =
    branch-Replays (is_safe_name c.name) (λ l. if_changed (set_bool_mode c mc (dir == b'+')) l [])
      (bounce c) c args (plain-Replays mc (dir == b'+') c args) refl
act-Replays w now ModeKind.key mc dir c args h =
    branch-Replays (dir == b'+') (key_on c) (λ l. if_changed (set_key c []) l []) c args
      (key_on-Replays c args)
      (if_changed-Replays (λ l. if_changed (set_key c []) l []) c (set_key c []) args []
        (set_key-IsHonest c []) (λ rest. refl))
act-Replays w now ModeKind.limit mc dir c args h =
    branch-Replays (dir == b'+') (limit_on c) (λ l. if_changed (set_limit c (pos 0)) l []) c args
      (limit_on-Replays c args)
      (if_changed-Replays (λ l. if_changed (set_limit c (pos 0)) l []) c (set_limit c (pos 0)) args
        [] (set_limit-IsHonest c (pos 0)) (λ rest. refl))
act-Replays w now ModeKind.op mc dir c args h =
    member_flag-Replays w (dir == b'+') member_op c h args
act-Replays w now ModeKind.voice mc dir c args h =
    member_flag-Replays w (dir == b'+') member_voice c h args
act-Replays w now ModeKind.ban mc dir c args h =
    mask_list-Replays (dir == b'+') (λ c m. add_ban c m now) remove_ban c args
      (λ mask. ban-IsHonest now c mask (dir == b'+'))
act-Replays w now ModeKind.exception mc dir c args h =
    mask_list-Replays (dir == b'+') (λ c m. add_exception c m now) remove_exception c args
      (λ mask. exception-IsHonest now c mask (dir == b'+'))
act-Replays w now ModeKind.invex mc dir c args h =
    mask_list-Replays (dir == b'+') (λ c m. add_invex c m now) remove_invex c args
      (λ mask. invex-IsHonest now c mask (dir == b'+'))
act-Replays w now ModeKind.quiet mc dir c args h =
    mask_list-Replays (dir == b'+') (λ c m. add_quiet c m now) remove_quiet c args
      (λ mask. quiet-IsHonest now c mask (dir == b'+'))
act-Replays w now ModeKind.unknown mc dir c args h = refl
