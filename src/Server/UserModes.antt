-- ===== src/Server/UserModes.antt =====
-- `handleUserMode` of internal/server/handler_mode.go: a user reads or changes its own modes.
pub mod Rights
use ircat.Base.{ℕ, Bool, not, ◌||◌, List, [], ◌∷◌, ◌++◌, ◌==◌, if◌then◌else◌, any, filterb, Bytes}
use ircat.State.Casemap.{CaseMapping, equal}
use ircat.State.World.{User, hostmask}

-- what is sent back
pub data UserModeReply : Type 0 where
  no_such_nick : Bytes → UserModeReply
  current_modes : Bytes → UserModeReply
  changed_modes : Bytes → Bytes → UserModeReply

abbrev pub has_mode : ℕ → Bytes → Bool
has_mode b modes = any (λ x. x == b) modes

unfoldable pub add_mode : ℕ → Bytes → Bytes
unfolding any
add_mode b current = if has_mode b current then current else current ++ b ∷ []

unfoldable pub del_mode : ℕ → Bytes → Bytes
unfolding filterb
del_mode b current = filterb (λ x. not (x == b)) current

-- one character that is not a sign, in the direction `dir`
unfoldable pub user_mode : ℕ → ℕ → Bytes → Bytes
unfolding add_mode del_mode
user_mode dir mc current =
    if mc == b'i' || mc == b'w' || mc == b's'
    then (if dir == b'+' then add_mode mc current else del_mode mc current)
    else if mc == b'o'
    then (if dir == b'-' then del_mode mc current else current)
    else current

-- the loop over the mode string
unfoldable pub run_user_modes : Bytes → ℕ → Bytes → Bytes
run_user_modes [] dir current = current
run_user_modes (mc ∷ s) dir current =
    let turned = run_user_modes s mc current in
    let later = run_user_modes s dir (user_mode dir mc current) in
    if mc == b'+' || mc == b'-' then turned else later

-- the two forms, behind the test of the target
unfoldable pub own_modes : User → List Bytes → User × UserModeReply
unfolding run_user_modes
own_modes u [] = (u, UserModeReply.current_modes (b'+' ∷ u.modes))
own_modes u (s ∷ _) =
    let u' : User = record u { modes = run_user_modes s b'+' u.modes } in
    (u', UserModeReply.changed_modes (hostmask u') (b'+' ∷ u'.modes))

unfoldable pub handle_user_mode : CaseMapping → User → Bytes → List Bytes → User × UserModeReply
unfolding own_modes equal
handle_user_mode m u target params =
    if not (equal m target u.nick)
    then (u, UserModeReply.no_such_nick target)
    else own_modes u params
