-- ===== src/Server/Modes/Creator.antt =====
-- What no MODE command changes: who is a member, who is the creator, and the channel's name.
pub mod Parts
use ircat.Base.{
  ℕ, refl, sym, inl, inr, Bool, true, false, Option, none, some, List, [], ◌∷◌, ◌==◌, if◌then◌else◌,
  Bool-cases, Bytes, nat_eq,
}
use mathlib.Core.Path.{subst}
use ircat.Base.Int.{ℤ, pos, ltb_ℤ}
use ircat.State.Membership.{Membership, member_op, member_voice}
use ircat.State.Channel.{Channel, UserId, is_member}
use ircat.State.Channel.Members.{IsSound}
use ircat.State.Channel.Modes.{set_bool_mode, set_key, set_limit}
use ircat.State.Channel.Masks.{
  add_ban, remove_ban, add_exception, remove_exception, add_invex, remove_invex, add_quiet,
  remove_quiet,
}
use ircat.State.World.{World, User, is_safe_name, find_by_nick}
use ircat.Server.Atoi.{atoi}
use ircat.Server.Modes.{
  ModeKind, mode_kind, Acted, act, is_sign, key_on, limit_on, limit_at, limit_read, member_changed,
  target_flag, found_flag, member_flag, mask_list, bounce, if_changed, apply_channel_modes,
}
use ircat.Server.Modes.Trace.{trace, apply_channel_modes-trace}
use ircat.Server.Modes.Creator.Parts.{
  Kept, Elsewhere, IsGrantable, Kept-refl, Kept-trans, Elsewhere-Kept, set_bool_mode-Elsewhere,
  set_key-Elsewhere, set_limit-Elsewhere, add_membership-Kept, remove_membership-Kept,
  ban-Elsewhere, exception-Elsewhere, invex-Elsewhere, quiet-Elsewhere,
}

-- What one mode character leaves of the channel is kept, in every case.
module _ (c : Channel) (s : IsSound c) where
  elsewhere : {c' : Channel} → Elsewhere c c' → Kept c c'
  elsewhere {c'} e = Elsewhere-Kept c c' s e

  key_on-Kept : (args : List Bytes) → Kept c (key_on c args).channel
  unfolding key_on
  key_on-Kept [] = Kept-refl c s
  key_on-Kept ([] ∷ args) = Kept-refl c s
  key_on-Kept ((x ∷ k) ∷ args) = elsewhere (set_key-Elsewhere c (x ∷ k))

  limit_at-Kept :
      (raw : Bytes) (args : List Bytes) (n : ℤ) (b : Bool)
      → Kept c (limit_at c raw args n b).channel
  limit_at-Kept raw args n true = Kept-refl c s
  limit_at-Kept raw args n false = elsewhere (set_limit-Elsewhere c n)

  limit_read-Kept :
      (raw : Bytes) (args : List Bytes) (o : Option ℤ) → Kept c (limit_read c raw args o).channel
  limit_read-Kept raw args none = Kept-refl c s
  limit_read-Kept raw args (some n) = limit_at-Kept raw args n (ltb_ℤ n (pos 0))

  limit_on-Kept : (args : List Bytes) → Kept c (limit_on c args).channel
  unfolding limit_on
  limit_on-Kept [] = Kept-refl c s
  limit_on-Kept (raw ∷ args) = limit_read-Kept raw args (atoi raw)

  member_changed-Kept :
      (on : Bool) (id : UserId) (f : Membership)
      → IsGrantable f
      → Kept c (member_changed on c id f).0
  member_changed-Kept true id f g = add_membership-Kept c id f g s
  member_changed-Kept false id f g = remove_membership-Kept c id f g s

  target_flag-Kept :
      (on : Bool) (f : Membership) (args : List Bytes) (u : User) (b : Bool)
      → IsGrantable f
      → Kept c (target_flag on f c args u b).channel
  target_flag-Kept on f args u false g = Kept-refl c s
  target_flag-Kept on f args u true g = member_changed-Kept on u.id f g

  found_flag-Kept :
      (on : Bool) (f : Membership) (args : List Bytes) (o : Option User)
      → IsGrantable f
      → Kept c (found_flag on f c args o).channel
  found_flag-Kept on f args none g = Kept-refl c s
  found_flag-Kept on f args (some u) g = target_flag-Kept on f args u (is_member c u.id) g

  member_flag-Kept :
      (w : World) (on : Bool) (f : Membership) (args : List Bytes)
      → IsGrantable f
      → Kept c (member_flag w on f c args).channel
  unfolding member_flag
  member_flag-Kept w on f [] g = Kept-refl c s
  member_flag-Kept w on f (arg ∷ args) g = found_flag-Kept on f args (find_by_nick w arg) g

  mask_list-Kept :
      (on : Bool) (add remove : Channel → Bytes → Channel × Bool) (args : List Bytes)
      → ((mask : Bytes) → Elsewhere c (if on then add c mask else remove c mask).0)
      → Kept c (mask_list on add remove c args).channel
  unfolding mask_list
  mask_list-Kept on add remove [] h = Kept-refl c s
  mask_list-Kept on add remove ([] ∷ args) h = Kept-refl c s
  mask_list-Kept on add remove ((x ∷ mask) ∷ args) h = elsewhere (h (x ∷ mask))

  branch-Kept :
      (b : Bool) (f g : Acted)
      → Kept c f.channel
      → Kept c g.channel
      → Kept c (if b then f else g).channel
  branch-Kept true f g hf hg = hf
  branch-Kept false f g hf hg = hg

  act-Kept :
      (w : World) (now : ℤ) (k : ModeKind) (mc dir : ℕ) (args : List Bytes)
      → Kept c (act w now k mc dir c args).channel
  unfolding act
  act-Kept w now ModeKind.plain mc dir args = elsewhere (set_bool_mode-Elsewhere c mc (dir == b'+'))
  act-Kept w now ModeKind.reop mc dir args =
      branch-Kept (is_safe_name c.name) (if_changed (set_bool_mode c mc (dir == b'+')) args [])
        (bounce c args) (elsewhere (set_bool_mode-Elsewhere c mc (dir == b'+'))) (Kept-refl c s)
  act-Kept w now ModeKind.key mc dir args =
      branch-Kept (dir == b'+') (key_on c args) (if_changed (set_key c []) args [])
        (key_on-Kept args) (elsewhere (set_key-Elsewhere c []))
  act-Kept w now ModeKind.limit mc dir args =
      branch-Kept (dir == b'+') (limit_on c args) (if_changed (set_limit c (pos 0)) args [])
        (limit_on-Kept args) (elsewhere (set_limit-Elsewhere c (pos 0)))
  act-Kept w now ModeKind.op mc dir args =
      member_flag-Kept w (dir == b'+') member_op args (inl refl)
  act-Kept w now ModeKind.voice mc dir args =
      member_flag-Kept w (dir == b'+') member_voice args (inr refl)
  act-Kept w now ModeKind.ban mc dir args =
      mask_list-Kept (dir == b'+') (λ c m. add_ban c m now) remove_ban args
        (λ m. ban-Elsewhere now c m (dir == b'+'))
  act-Kept w now ModeKind.exception mc dir args =
      mask_list-Kept (dir == b'+') (λ c m. add_exception c m now) remove_exception args
        (λ m. exception-Elsewhere now c m (dir == b'+'))
  act-Kept w now ModeKind.invex mc dir args =
      mask_list-Kept (dir == b'+') (λ c m. add_invex c m now) remove_invex args
        (λ m. invex-Elsewhere now c m (dir == b'+'))
  act-Kept w now ModeKind.quiet mc dir args =
      mask_list-Kept (dir == b'+') (λ c m. add_quiet c m now) remove_quiet args
        (λ m. quiet-Elsewhere now c m (dir == b'+'))
  act-Kept w now ModeKind.unknown mc dir args = Kept-refl c s

trace-Kept :
    (w : World) (now : ℤ) (s : Bytes) (dir : ℕ) (args : List Bytes) (c : Channel)
    → IsSound c
    → Kept c (trace w now s dir args c).channel
unfolding trace
trace-Kept w now [] dir args c h = Kept-refl c h
trace-Kept w now (mc ∷ s) dir args c h =
    let a = act w now (mode_kind mc) mc dir c args in
    let first = act-Kept c h w now (mode_kind mc) mc dir args in
    elim (Bool-cases (is_sign mc)) [
      | inl e ↦ rw e (trace-Kept w now s mc args c h)
      | inr e ↦
          rw e
            (Kept-trans c a.channel _ first (trace-Kept w now s dir a.args a.channel first.sound))
    ]

-- A channel MODE command, whatever its characters and arguments, on a channel whose members are
-- listed once with a byte of flags: keeps that so, leaves every user a member or not as before,
-- gives nobody the creator flag and takes it from nobody, and keeps the channel's name.
pub apply_channel_modes-Kept :
    (w : World) (now : ℤ) (c : Channel) (modes : Bytes) (args : List Bytes)
    → IsSound c
    → Kept c (apply_channel_modes w now c (modes ∷ args)).channel
apply_channel_modes-Kept w now c modes args h =
    subst (λ r. Kept c r.channel) (sym (apply_channel_modes-trace w now c modes args))
      (trace-Kept w now modes b'+' args c h)
