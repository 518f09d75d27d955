-- ===== src/State/Channel/Modes.antt =====
-- The boolean modes, the key and the limit of internal/state/channel.go, with `ModeString`,
-- `RestoreState` and `itoaPositive`.
pub mod Restore
pub mod Decimal
use ircat.Base.{
  ℕ, zero, suc, ◌+◌, ◌/◌, ◌%◌, Bool, true, false, not, Option, none, some, List, [], ◌∷◌, ◌++◌,
  ◌==◌, if◌then◌else◌, Bytes, bytes_eq, bytes_has_eq,
}
use ircat.Base.GoMap.{put}
use ircat.Base.Int.{ℤ, pos, negsuc, ltb_ℤ, eq_ℤ}
use ircat.State.Channel.{ChannelModes, no_modes, Channel, Masks}

-- what `boolModePtr` can point to
pub data ModeField : Type 0 where
  invite_only moderated no_external private secret topic_locked anonymous server_reop : ModeField

abbrev pub read : ModeField → ChannelModes → Bool
read ModeField.invite_only m = m.invite_only
read ModeField.moderated m = m.moderated
read ModeField.no_external m = m.no_external
read ModeField.private m = m.private
read ModeField.secret m = m.secret
read ModeField.topic_locked m = m.topic_locked
read ModeField.anonymous m = m.anonymous
read ModeField.server_reop m = m.server_reop

abbrev pub write : ModeField → Bool → ChannelModes → ChannelModes
write ModeField.invite_only b m = record m { invite_only = b }
write ModeField.moderated b m = record m { moderated = b }
write ModeField.no_external b m = record m { no_external = b }
write ModeField.private b m = record m { private = b }
write ModeField.secret b m = record m { secret = b }
write ModeField.topic_locked b m = record m { topic_locked = b }
write ModeField.anonymous b m = record m { anonymous = b }
write ModeField.server_reop b m = record m { server_reop = b }

unfoldable pub bool_mode_ptr : ℕ → Option ModeField
bool_mode_ptr mode =
    if mode == b'i'
    then some ModeField.invite_only
    else if mode == b'm'
    then some ModeField.moderated
    else if mode == b'n'
    then some ModeField.no_external
    else if mode == b'p'
    then some ModeField.private
    else if mode == b's'
    then some ModeField.secret
    else if mode == b't'
    then some ModeField.topic_locked
    else if mode == b'a'
    then some ModeField.anonymous
    else if mode == b'r'
    then some ModeField.server_reop
    else none

abbrev pub same_bool : Bool → Bool → Bool
same_bool true b = b
same_bool false b = not b

unfoldable pub set_bool_mode : Channel → ℕ → Bool → Channel × Bool
set_bool_mode c mode on = elim (bool_mode_ptr mode) [
  | none ↦ (c, false)
  | some f ↦
      if same_bool (read f c.modes) on
      then (c, false)
      else (record c { modes = write f on c.modes }, true)
]

unfoldable pub set_key : Channel → Bytes → Channel × Bool
set_key c key = if bytes_eq c.key key then (c, false) else (record c { key = key }, true)

unfoldable pub set_limit : Channel → ℤ → Channel × Bool
set_limit c limit =
    let limit : ℤ = if ltb_ℤ limit (pos 0) then pos 0 else limit in
    if eq_ℤ c.limit limit then (c, false) else (record c { limit = limit }, true)

-- The loop of `itoaPositive`; `i` is how many bytes of the buffer are left, and a write in front
-- of the buffer would panic.
unfoldable pub itoa_loop : ℕ → ℕ → Bytes → Option Bytes
itoa_loop zero n buf = if n == 0 then some buf else none
itoa_loop (suc i) n buf =
    let rest = itoa_loop i (n / 10) ((b'0' + n % 10) ∷ buf) in if n == 0 then some buf else rest

abbrev pub or_empty : Option Bytes → Bytes
or_empty none = []
or_empty (some s) = s

unfoldable pub itoa_positive : ℤ → Bytes
itoa_positive (negsuc _) = []
itoa_positive (pos n) = if n == 0 then b'0' ∷ [] else or_empty (itoa_loop 20 n [])

abbrev pub flag : Bool → ℕ → Bytes
flag b c = if b then c ∷ [] else []

-- `!= ""` and `> 0`
abbrev pub nonempty : Bytes → Bool
nonempty [] = false
nonempty (_ ∷ _) = true

abbrev pub positive : ℤ → Bool
positive n = ltb_ℤ (pos 0) n

-- the appends of `ModeString` behind the leading `+`
unfoldable pub mode_letters : ChannelModes → Bytes → Bytes
mode_letters m rest =
    flag m.no_external b'n'
    ++ (flag m.topic_locked b't'
        ++ (flag m.moderated b'm'
            ++ (flag m.invite_only b'i'
                ++ (flag m.private b'p'
                    ++ (flag m.secret b's'
                        ++ (flag m.anonymous b'a' ++ (flag m.server_reop b'r' ++ rest)))))))

unfoldable pub mode_string : Channel → Bytes × List Bytes
mode_string c = (
  b'+' ∷ mode_letters c.modes (flag (nonempty c.key) b'k' ++ flag (positive c.limit) b'l'),
  (if nonempty c.key then c.key ∷ [] else [])
      ++ (if positive c.limit then itoa_positive c.limit ∷ [] else []),
)

-- One round of the loop of `RestoreState`, whose letters are those of `boolModePtr`.
abbrev pub restore_letter : Option ModeField → ChannelModes → ChannelModes
restore_letter none m = m
restore_letter (some f) m = write f true m

unfoldable pub restore_modes : Bytes → ChannelModes → ChannelModes
unfolding bool_mode_ptr
restore_modes [] m = m
restore_modes (b ∷ word) m = restore_modes word (restore_letter (bool_mode_ptr b) m)

-- `for k, v := range src { dst[k] = v }` into a new map
unfoldable pub copy_masks : Masks → Masks → Masks
copy_masks [] dst = dst
copy_masks ((k, v) ∷ src) dst = copy_masks src (put k v dst)

-- what `RestoreState` is given
pub record Saved : Type 0 where
  pub topic : Bytes
  pub topic_set_by : Bytes
  pub topic_set_at : Option ℤ
  pub mode_word : Bytes
  pub key : Bytes
  pub limit : ℤ
  pub bans : Masks
  pub exceptions : Masks
  pub invexes : Masks
  pub quiets : Masks

unfoldable pub restore_state : Channel → Saved → Channel
unfolding restore_modes copy_masks
restore_state c s = record c {
  topic = s.topic;
  topic_set_by = s.topic_set_by;
  topic_set_at = s.topic_set_at;
  key = s.key;
  limit = s.limit;
  modes = restore_modes s.mode_word no_modes;
  bans = copy_masks s.bans [];
  exceptions = copy_masks s.exceptions [];
  invexes = copy_masks s.invexes [];
  quiets = copy_masks s.quiets [];
}
