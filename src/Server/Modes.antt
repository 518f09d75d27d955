-- ===== src/Server/Modes.antt =====
-- `applyChannelModes` of internal/server/handler_mode.go: the run through a mode string and its
-- arguments that changes a channel and collects what is broadcast. `argi` with `args[argi:]` is
-- the list of the arguments not yet popped.
pub mod Trace
pub mod Replay
pub mod Creator
pub mod Handler
use ircat.Base.{
  ℕ, Bool, true, false, ◌||◌, Option, none, some, List, [], ◌∷◌, ◌++◌, ◌==◌, if◌then◌else◌, Bytes,
}
use ircat.Base.Int.{ℤ, pos, ltb_ℤ}
use ircat.State.Membership.{Membership, member_op, member_voice}
use ircat.State.Channel.{Channel, UserId, is_member, add_membership, remove_membership}
use ircat.State.Channel.Modes.{set_bool_mode, set_key, set_limit}
use ircat.State.Channel.Masks.{
  add_ban, remove_ban, add_exception, remove_exception, add_invex, remove_invex, add_quiet,
  remove_quiet,
}
use ircat.State.World.{World, User, is_empty, is_safe_name, find_by_nick}
use ircat.Server.Atoi.{atoi}

-- the cases of the `switch` on a mode character
pub data ModeKind : Type 0 where
  plain reop key limit op voice ban exception invex quiet unknown : ModeKind

unfoldable pub mode_kind : ℕ → ModeKind
mode_kind mc =
    if mc == b'i'
      || mc == b'm'
      || mc == b'n'
      || mc == b'p'
      || mc == b's'
      || mc == b't'
      || mc == b'a'
    then ModeKind.plain
    else if mc == b'r'
    then ModeKind.reop
    else if mc == b'k'
    then ModeKind.key
    else if mc == b'l'
    then ModeKind.limit
    else if mc == b'o'
    then ModeKind.op
    else if mc == b'v'
    then ModeKind.voice
    else if mc == b'b'
    then ModeKind.ban
    else if mc == b'e'
    then ModeKind.exception
    else if mc == b'I'
    then ModeKind.invex
    else if mc == b'q'
    then ModeKind.quiet
    else ModeKind.unknown

-- What one mode character did: the channel, the arguments left, the parameters to broadcast if
-- it changed something, and whether it is bounced.
pub record Acted : Type 0 where
  pub channel : Channel
  pub args : List Bytes
  pub shown : Option (List Bytes)
  pub bad : Bool

abbrev pub skip : Channel → List Bytes → Acted
skip c args = record { channel = c; args = args; shown = none; bad = false }

abbrev pub bounce : Channel → List Bytes → Acted
bounce c args = record { channel = c; args = args; shown = none; bad = true }

-- `if ch.Set…(…) { flushDir(dir); … }`
abbrev pub if_changed : Channel × Bool → List Bytes → List Bytes → Acted
if_changed (c, changed) args params = record {
  channel = c;
  args = args;
  shown = if changed then some params else none;
  bad = false;
}

-- `+k`
unfoldable pub key_on : Channel → List Bytes → Acted
key_on c [] = skip c []
key_on c (k ∷ args) = if is_empty k then skip c args else if_changed (set_key c k) args (k ∷ [])

-- `+l`, behind `Atoi`; the Boolean is `n < 0`
abbrev pub limit_at : Channel → Bytes → List Bytes → ℤ → Bool → Acted
limit_at c raw args n true = skip c args
limit_at c raw args n false = if_changed (set_limit c n) args (raw ∷ [])

abbrev pub limit_read : Channel → Bytes → List Bytes → Option ℤ → Acted
limit_read c raw args none = skip c args
limit_read c raw args (some n) = limit_at c raw args n (ltb_ℤ n (pos 0))

unfoldable pub limit_on : Channel → List Bytes → Acted
limit_on c [] = skip c []
limit_on c (raw ∷ args) = limit_read c raw args (atoi raw)

-- `_, changed = ch.AddMembership(…)`, or `RemoveMembership`
abbrev pub member_changed : Bool → Channel → UserId → Membership → Channel × Bool
member_changed on c id flag =
    if on
    then (let (c', _, changed) = add_membership c id flag in (c', changed))
    else (let (c', _, changed) = remove_membership c id flag in (c', changed))

-- `o` and `v`, behind `FindByNick`; the Boolean is `ch.IsMember(target.ID)`
abbrev pub target_flag : Bool → Membership → Channel → List Bytes → User → Bool → Acted
target_flag on flag c args target false = skip c args
target_flag on flag c args target true =
    if_changed (member_changed on c target.id flag) args (target.nick ∷ [])

abbrev pub found_flag : Bool → Membership → Channel → List Bytes → Option User → Acted
found_flag on flag c args none = skip c args
found_flag on flag c args (some target) = target_flag on flag c args target (is_member c target.id)

unfoldable pub member_flag : World → Bool → Membership → Channel → List Bytes → Acted
member_flag w on flag c [] = skip c []
member_flag w on flag c (arg ∷ args) = found_flag on flag c args (find_by_nick w arg)

-- `b`, `e`, `I` and `q`, whose cases differ in the list alone
unfoldable pub mask_list :
    Bool
    → (Channel → Bytes → Channel × Bool)
    → (Channel → Bytes → Channel × Bool)
    → Channel
    → List Bytes
    → Acted
mask_list on add remove c [] = skip c []
mask_list on add remove c (mask ∷ args) =
    if is_empty mask
    then skip c args
    else if_changed (if on then add c mask else remove c mask) args (mask ∷ [])

-- one case of the `switch`
unfoldable pub act : World → ℤ → ModeKind → ℕ → ℕ → Channel → List Bytes → Acted
unfolding key_on limit_on member_flag mask_list
act w now ModeKind.plain mc dir c args = if_changed (set_bool_mode c mc (dir == b'+')) args []
act w now ModeKind.reop mc dir c args =
    if is_safe_name c.name
    then if_changed (set_bool_mode c mc (dir == b'+')) args []
    else bounce c args
act w now ModeKind.key mc dir c args =
    if dir == b'+' then key_on c args else if_changed (set_key c []) args []
act w now ModeKind.limit mc dir c args =
    if dir == b'+' then limit_on c args else if_changed (set_limit c (pos 0)) args []
act w now ModeKind.op mc dir c args = member_flag w (dir == b'+') member_op c args
act w now ModeKind.voice mc dir c args = member_flag w (dir == b'+') member_voice c args
act w now ModeKind.ban mc dir c args =
    mask_list (dir == b'+') (λ c m. add_ban c m now) remove_ban c args
act w now ModeKind.exception mc dir c args =
    mask_list (dir == b'+') (λ c m. add_exception c m now) remove_exception c args
act w now ModeKind.invex mc dir c args =
    mask_list (dir == b'+') (λ c m. add_invex c m now) remove_invex c args
act w now ModeKind.quiet mc dir c args =
    mask_list (dir == b'+') (λ c m. add_quiet c m now) remove_quiet c args
act w now ModeKind.unknown mc dir c args = bounce c args

-- what the run has collected
pub record Applied : Type 0 where
  pub channel : Channel
  pub changes : Bytes
  pub params : List Bytes
  pub bad_chars : Bytes

abbrev pub last_byte : Bytes → Option ℕ
last_byte [] = none
last_byte (c ∷ []) = some c
last_byte (c ∷ d ∷ s) = last_byte (d ∷ s)

-- `flushDir`, by the last byte written
abbrev pub flush_after : ℕ → Bytes → Option ℕ → Bytes
flush_after d out none = out ++ d ∷ []
flush_after d out (some last) = if last == d then out else out ++ d ∷ []

abbrev pub flush_dir : ℕ → Bytes → Bytes
flush_dir d out = flush_after d out (last_byte out)

abbrev pub note_shown : ℕ → ℕ → Option (List Bytes) → Applied → Applied
note_shown dir mc none r = r
note_shown dir mc (some params) r = record r {
  changes = flush_dir dir r.changes ++ mc ∷ [];
  params = r.params ++ params;
}

abbrev pub note_bad : ℕ → Bool → Applied → Applied
note_bad mc bad r = if bad then record r { bad_chars = r.bad_chars ++ mc ∷ [] } else r

-- the bookkeeping behind one mode character
abbrev pub note : ℕ → ℕ → Acted → Applied → Applied
note dir mc a r = note_bad mc a.bad (note_shown dir mc a.shown (record r { channel = a.channel }))

abbrev pub is_sign : ℕ → Bool
is_sign c = c == b'+' || c == b'-'

-- the loop over the mode string
unfoldable pub run_modes : World → ℤ → Bytes → ℕ → List Bytes → Applied → Applied
run_modes w now [] dir args r = r
run_modes w now (mc ∷ s) dir args r =
    let a = act w now (mode_kind mc) mc dir r.channel args in
    let turned = run_modes w now s mc args r in
    let later = run_modes w now s dir a.args (note dir mc a r) in
    if is_sign mc then turned else later

unfoldable pub apply_channel_modes : World → ℤ → Channel → List Bytes → Applied
unfolding run_modes act mode_kind
apply_channel_modes w now c [] = record { channel = c; changes = []; params = []; bad_chars = [] }
apply_channel_modes w now c (modes ∷ args) =
    run_modes w now modes b'+' args
      (record { channel = c; changes = []; params = []; bad_chars = [] })
