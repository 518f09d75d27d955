-- ===== src/Federation/Modes.antt =====
-- `applyRemoteChannelMode` of internal/federation/federation.go: a MODE of a peer applied to a
-- channel. `args` is what of `args[argi:]` is left.
pub mod Mirror
pub mod Carried
use ircat.Base.{ℕ, Bool, not, ◌||◌, Option, none, some, List, [], ◌∷◌, ◌==◌, if◌then◌else◌, Bytes}
use ircat.Base.Int.{ℤ, pos, ltb_ℤ}
use ircat.State.Membership.{Membership, member_op, member_voice}
use ircat.State.Channel.{Channel, is_member, add_membership, remove_membership}
use ircat.State.Channel.Modes.{set_bool_mode, set_key, set_limit}
use ircat.State.Channel.Masks.{add_ban, remove_ban}
use ircat.State.World.{World, User, is_empty, find_by_nick}
use ircat.Server.Atoi.{atoi}

-- the cases of the `switch`
pub data RemoteKind : Type 0 where
  plain key limit op voice ban ignored : RemoteKind

unfoldable pub remote_kind : ℕ → RemoteKind
remote_kind mc =
    if mc == b'i' || mc == b'm' || mc == b'n' || mc == b'p' || mc == b's' || mc == b't'
    then RemoteKind.plain
    else if mc == b'k'
    then RemoteKind.key
    else if mc == b'l'
    then RemoteKind.limit
    else if mc == b'o'
    then RemoteKind.op
    else if mc == b'v'
    then RemoteKind.voice
    else if mc == b'b'
    then RemoteKind.ban
    else RemoteKind.ignored

-- the channel, and the arguments that are left
abbrev pub Left : Type 0
Left = Channel × List Bytes

unfoldable pub remote_key : Channel → List Bytes → Left
remote_key c [] = (c, [])
remote_key c (k ∷ args) = (if is_empty k then c else (set_key c k).0, args)

abbrev pub limit_or_same : Channel → Option ℤ → Channel
limit_or_same c none = c
limit_or_same c (some n) = if ltb_ℤ n (pos 0) then c else (set_limit c n).0

unfoldable pub remote_limit : Channel → List Bytes → Left
remote_limit c [] = (c, [])
remote_limit c (raw ∷ args) = (limit_or_same c (atoi raw), args)

abbrev pub flag_of_found : Bool → Membership → Channel → Option User → Channel
flag_of_found on flag c none = c
flag_of_found on flag c (some target) =
    if not (is_member c target.id)
    then c
    else if on
    then (add_membership c target.id flag).0
    else (remove_membership c target.id flag).0

unfoldable pub remote_flag : World → Bool → Membership → Channel → List Bytes → Left
remote_flag w on flag c [] = (c, [])
remote_flag w on flag c (arg ∷ args) = (flag_of_found on flag c (find_by_nick w arg), args)

unfoldable pub remote_ban : ℤ → Bool → Channel → List Bytes → Left
remote_ban now on c [] = (c, [])
remote_ban now on c (mask ∷ args) = (
  if is_empty mask then c else if on then (add_ban c mask now).0 else (remove_ban c mask).0,
  args,
)

-- one case of the `switch`
unfoldable pub remote_act : World → ℤ → RemoteKind → ℕ → Bool → Channel → List Bytes → Left
unfolding remote_key remote_limit remote_flag remote_ban
remote_act w now RemoteKind.plain mc on c args = ((set_bool_mode c mc on).0, args)
remote_act w now RemoteKind.key mc on c args =
    if on then remote_key c args else ((set_key c []).0, args)
remote_act w now RemoteKind.limit mc on c args =
    if on then remote_limit c args else ((set_limit c (pos 0)).0, args)
remote_act w now RemoteKind.op mc on c args = remote_flag w on member_op c args
remote_act w now RemoteKind.voice mc on c args = remote_flag w on member_voice c args
remote_act w now RemoteKind.ban mc on c args = remote_ban now on c args
remote_act w now RemoteKind.ignored mc on c args = (c, args)

-- the loop over the mode string
unfoldable pub remote_modes : World → ℤ → Bytes → ℕ → Left → Channel
remote_modes w now [] dir (c, args) = c
remote_modes w now (mc ∷ s) dir (c, args) =
    let a = remote_act w now (remote_kind mc) mc (dir == b'+') c args in
    let turned = remote_modes w now s mc (c, args) in
    let later = remote_modes w now s dir a in if mc == b'+' || mc == b'-' then turned else later

unfoldable pub apply_remote_channel_mode : World → Channel → List Bytes → ℤ → Channel
apply_remote_channel_mode w c [] now = c
apply_remote_channel_mode w c (word ∷ args) now = remote_modes w now word b'+' (c, args)
