-- ===== src/Tests/Commands.antt =====
-- The theorems on the MODE handlers and on persistence.
use ircat.Base.{
  ◌≡◌, refl, true, false, not, ◌&&◌, none, some, List, [], ◌∷◌, if◌then◌else◌, is_some, Bytes,
  codes, bytes_eq, nat_eq, bytes_has_eq,
}
use ircat.State.Channel.Masks.{any_mask, matches_invex}
use ircat.Base.GoMap.{put, erase, get}
use ircat.Base.Int.{pos}
use ircat.State.Casemap.{fold, rfc1459}
use ircat.State.Channel.{Channel, no_modes}
use ircat.State.World.{World, add_user, User, new_world, find_channel}
use ircat.Server.Modes.{apply_channel_modes}
use ircat.Server.Modes.Trace.{behind, begin, trace, apply_channel_modes-trace}
use ircat.Server.Modes.Replay.{all_known, apply_channel_modes_again}
use ircat.Server.Modes.Creator.Parts.{Kept}
use ircat.Server.Modes.Creator.{apply_channel_modes-Kept}
use ircat.State.Membership.{is_op}
use ircat.Server.Modes.Handler.Guard.{may_change}
use ircat.Server.UserModes.{has_mode, handle_user_mode}
use ircat.Server.UserModes.Rights.{handle_user_mode-rights}
use ircat.Server.Persistence.{persisted, restore_record}
use ircat.Server.Persistence.Survives.{HasMasksOnce, restore_record-persisted}
use ircat.Server.Channels.{check_join_policy}
use ircat.Server.Channels.Policy.{needs_invite, is_invited, fits_key, passes, check_join_policy_lem}
use ircat.Tests.Worlds.{world_2, reached_2, ann, bob}
use ircat.Tests.Channels.{lounge, lounge-IsSound}

abbrev modes : Bytes
modes = codes "+mo-k+lzb"

abbrev args : List Bytes
args = codes "BOB" ∷ codes "20" ∷ codes "*!*@x" ∷ []

apply_channel_modes-trace_example :
    apply_channel_modes world_2 (pos 9) lounge (modes ∷ args)
    ≡ behind (begin lounge) (trace world_2 (pos 9) modes b'+' args lounge)
apply_channel_modes-trace_example = apply_channel_modes-trace world_2 (pos 9) lounge modes args

apply_channel_modes_again_example :
    let done = apply_channel_modes world_2 (pos 9) lounge (modes ∷ args) in
    apply_channel_modes world_2 (pos 9) lounge (done.changes ∷ done.params) ≡ all_known done
apply_channel_modes_again_example = apply_channel_modes_again (pos 9) lounge modes args reached_2

apply_channel_modes-Kept_example :
    Kept lounge (apply_channel_modes world_2 (pos 9) lounge (modes ∷ args)).channel
apply_channel_modes-Kept_example =
    apply_channel_modes-Kept world_2 (pos 9) lounge modes args lounge-IsSound

abbrev oper : User
oper = record ann { modes = codes "ow" }

handle_user_mode-rights_example :
    let u' = (handle_user_mode rfc1459 oper (codes "ANN") (codes "-o+ori" ∷ [])).0 in
    (has_mode b'o' u'.modes && not (has_mode b'o' oper.modes) ≡ false)
    × (has_mode b'r' u'.modes ≡ has_mode b'r' oper.modes)
handle_user_mode-rights_example =
    handle_user_mode-rights rfc1459 oper (codes "ANN") (codes "-o+ori" ∷ []) b'r' refl

lounge_masks_once : HasMasksOnce lounge
unfolding get
lounge_masks_once = record { bans = (refl, tt); exceptions = tt; invexes = (refl, tt); quiets = tt }

no_lounge : find_channel (new_world rfc1459 0) lounge.name ≡ none
unfolding find_channel get
no_lounge = refl

restore_record-persisted_example :
    find_channel (restore_record (new_world rfc1459 0) (pos 77) (persisted lounge)) lounge.name
    ≡ some (record lounge { created_at = pos 77; members = []; invites = [] })
restore_record-persisted_example =
    restore_record-persisted (new_world rfc1459 0) (pos 77) lounge lounge_masks_once refl no_lounge

-- The lounge, invite-only, with an invite of Bob, who matches its invite exception no more.
abbrev shut_lounge : Channel
shut_lounge = record lounge {
  modes = record no_modes { invite_only = true };
  invexes = [];
  invites = (2, tt) ∷ [];
}

check_join_policy_lem_example :
    (is_some (check_join_policy rfc1459 shut_lounge bob (codes "k1")).1
      ≡ not (passes rfc1459 shut_lounge bob (codes "k1")))
    × ((check_join_policy rfc1459 shut_lounge bob (codes "k1")).0 ≡ (
        if needs_invite rfc1459 shut_lounge bob (codes "k1")
          && is_invited rfc1459 shut_lounge bob (codes "k1")
        then record shut_lounge { invites = erase 2 shut_lounge.invites }
        else shut_lounge))
check_join_policy_lem_example = check_join_policy_lem rfc1459 shut_lounge bob (codes "k1")

bob_needs : needs_invite rfc1459 shut_lounge bob (codes "no") ≡ true
unfolding matches_invex any_mask
bob_needs = refl

bob_invited : is_invited rfc1459 shut_lounge bob (codes "no") ≡ true
unfolding get
bob_invited = refl

bob_wrong : fits_key rfc1459 shut_lounge bob (codes "no") ≡ false
unfolding bytes_eq
bob_wrong = refl

abbrev lounge_world : World
lounge_world = record world_2 { by_channel = (codes "!abcdex", shut_lounge) ∷ [] }

lounge_found : find_channel lounge_world (codes "!ABCDEx") ≡ some shut_lounge
unfolding find_channel add_user get put fold bytes_eq
lounge_found = refl

bob_shut_out : passes lounge_world.mapping shut_lounge bob (codes "no") ≡ false
unfolding matches_invex any_mask bytes_eq get add_user put fold
bob_shut_out = refl

bob_powerless : may_change shut_lounge bob ≡ false
unfolding get is_op
bob_powerless = refl
