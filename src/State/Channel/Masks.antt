-- ===== src/State/Channel/Masks.antt =====
-- The mask lists of internal/state/channel.go (bans, ban exceptions, invite exceptions, quiets),
-- which have the same operations, and the pending invites.
pub mod Lists
use ircat.Base.{Bool, true, false, [], ◌∷◌, if◌then◌else◌, Bytes, nat_eq, bytes_has_eq}
use ircat.Base.GoMap.{put, erase, has}
use ircat.Base.Int.{ℤ}
use ircat.State.Channel.{Channel, Masks, UserId}
use ircat.State.Glob.{glob_match}

abbrev pub add_mask : Bytes → ℤ → Masks → Masks × Bool
add_mask mask at m = if has mask m then (m, false) else (put mask at m, true)

abbrev pub drop_mask : Bytes → Masks → Masks × Bool
drop_mask mask m = if has mask m then (erase mask m, true) else (m, false)

-- the loop over the masks of one list
unfoldable pub any_mask : (Bytes → Bytes) → Bytes → Masks → Bool
any_mask fold folded [] = false
any_mask fold folded ((mask, _) ∷ m) =
    if glob_match (fold mask) folded then true else any_mask fold folded m

abbrev pub matches_mask : Masks → Bytes → (Bytes → Bytes) → Bool
matches_mask m hostmask fold = any_mask fold (fold hostmask) m

unfoldable pub add_ban : Channel → Bytes → ℤ → Channel × Bool
add_ban c mask at = let (m, new) = add_mask mask at c.bans in (record c { bans = m }, new)

unfoldable pub remove_ban : Channel → Bytes → Channel × Bool
remove_ban c mask = let (m, old) = drop_mask mask c.bans in (record c { bans = m }, old)

unfoldable pub matches_ban : Channel → Bytes → (Bytes → Bytes) → Bool
matches_ban c = matches_mask c.bans

unfoldable pub add_exception : Channel → Bytes → ℤ → Channel × Bool
add_exception c mask at =
    let (m, new) = add_mask mask at c.exceptions in (record c { exceptions = m }, new)

unfoldable pub remove_exception : Channel → Bytes → Channel × Bool
remove_exception c mask =
    let (m, old) = drop_mask mask c.exceptions in (record c { exceptions = m }, old)

unfoldable pub matches_exception : Channel → Bytes → (Bytes → Bytes) → Bool
matches_exception c = matches_mask c.exceptions

unfoldable pub add_invex : Channel → Bytes → ℤ → Channel × Bool
add_invex c mask at = let (m, new) = add_mask mask at c.invexes in (record c { invexes = m }, new)

unfoldable pub remove_invex : Channel → Bytes → Channel × Bool
remove_invex c mask = let (m, old) = drop_mask mask c.invexes in (record c { invexes = m }, old)

unfoldable pub matches_invex : Channel → Bytes → (Bytes → Bytes) → Bool
matches_invex c = matches_mask c.invexes

unfoldable pub add_quiet : Channel → Bytes → ℤ → Channel × Bool
add_quiet c mask at = let (m, new) = add_mask mask at c.quiets in (record c { quiets = m }, new)

unfoldable pub remove_quiet : Channel → Bytes → Channel × Bool
remove_quiet c mask = let (m, old) = drop_mask mask c.quiets in (record c { quiets = m }, old)

unfoldable pub matches_quiet : Channel → Bytes → (Bytes → Bytes) → Bool
matches_quiet c = matches_mask c.quiets

unfoldable pub add_invite : Channel → UserId → Channel × Bool
add_invite c id =
    if has id c.invites then (c, false) else (record c { invites = put id tt c.invites }, true)

unfoldable pub consume_invite : Channel → UserId → Channel × Bool
consume_invite c id =
    if has id c.invites then (record c { invites = erase id c.invites }, true) else (c, false)
