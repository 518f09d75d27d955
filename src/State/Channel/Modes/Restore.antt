-- ===== src/State/Channel/Modes/Restore.antt =====
-- Modes, key and limit: what a setter changes, and that a saved mode word restores the modes.
use ircat.Base.{
  ℕ, ◌≡◌, refl, sym, ap, ◌∙◌, Bool, true, false, not, Option, none, some, ◌++◌, arith, ◌==◌,
  if◌then◌else◌, Bytes, bytes_has_eq,
}
use ircat.Base.Int.{pos, negsuc, eq_ℤ}
use ircat.State.Channel.{ChannelModes, no_modes, Channel}
use ircat.State.Channel.Modes.{
  ModeField, read, write, bool_mode_ptr, same_bool, set_bool_mode, set_limit, flag, nonempty,
  positive, mode_letters, mode_string, restore_modes,
}

-- the mode that a letter names, as the channel has it
abbrev pub mode_of : Channel → ℕ → Option Bool
mode_of c mode = elim (bool_mode_ptr mode) [ none ↦ none | some f ↦ some (read f c.modes) ]

-- SetBoolMode reports a change exactly when the letter names a mode that differs from what is
-- asked; afterwards that mode is as asked, and every other letter reads as before.
pub set_bool_mode_lem :
    (c : Channel) (mode : ℕ) (on : Bool) (other : ℕ)
    → ((set_bool_mode c mode on).1
        ≡ (elim (mode_of c mode) [ none ↦ false | some b ↦ not (same_bool b on) ]))
      × (mode_of (set_bool_mode c mode on).0 other ≡ (
          if other == mode
          then elim (mode_of c mode) [ none ↦ none | some _ ↦ some on ]
          else mode_of c other))
unfolding set_bool_mode bool_mode_ptr
set_bool_mode_lem c mode on other = ground arith

-- `SetLimit` stores what it is given, a negative limit as none, and reports a change exactly when
-- the limit stored before differs.
pub set_limit_lem :
    (c : Channel) (n : ℕ)
    → ((set_limit c (negsuc n)).0 ≡ (set_limit c (pos 0)).0)
      × ((set_limit c (pos n)).0.limit ≡ pos n)
      × ((set_limit c (pos n)).1 ≡ not (eq_ℤ c.limit (pos n)))
unfolding set_limit
set_limit_lem c n = ground arith

letter : ModeField → ℕ
letter ModeField.invite_only = b'i'
letter ModeField.moderated = b'm'
letter ModeField.no_external = b'n'
letter ModeField.private = b'p'
letter ModeField.secret = b's'
letter ModeField.topic_locked = b't'
letter ModeField.anonymous = b'a'
letter ModeField.server_reop = b'r'

write-false : (f : ModeField) (m : ChannelModes) → read f m ≡ false → write f false m ≡ m
write-false ModeField.invite_only m h = ground arith
write-false f m h = ground arith

-- One flag of a mode word, met while the mode is still off, sets the mode.
restore-flag :
    (f : ModeField) (b : Bool) (rest : Bytes) (m : ChannelModes)
    → read f m ≡ false
    → restore_modes (flag b (letter f) ++ rest) m ≡ restore_modes rest (write f b m)
unfolding restore_modes letter
restore-flag f false rest m h = ap (restore_modes rest) (sym (write-false f m h))
restore-flag ModeField.invite_only true rest m h = refl
restore-flag f true rest m h = refl

-- The letters of `k` and `l` behind the modes change nothing.
restore_rest : (k l : Bool) (m : ChannelModes) → restore_modes (flag k b'k' ++ flag l b'l') m ≡ m
unfolding restore_modes
restore_rest true true m = refl
restore_rest true false m = refl
restore_rest false true m = refl
restore_rest false false m = refl

restore-letters :
    (m : ChannelModes) (k l : Bool)
    → restore_modes (mode_letters m (flag k b'k' ++ flag l b'l')) no_modes ≡ m
unfolding mode_letters letter
restore-letters m k l =
    restore-flag ModeField.no_external m.no_external _ _ refl
    ∙ restore-flag ModeField.topic_locked m.topic_locked _ _ refl
    ∙ restore-flag ModeField.moderated m.moderated _ _ refl
    ∙ restore-flag ModeField.invite_only m.invite_only _ _ refl
    ∙ restore-flag ModeField.private m.private _ _ refl
    ∙ restore-flag ModeField.secret m.secret _ _ refl
    ∙ restore-flag ModeField.anonymous m.anonymous _ _ refl
    ∙ restore-flag ModeField.server_reop m.server_reop _ _ refl
    ∙ restore_rest k l _

-- The mode word that ModeString writes, read by RestoreState from no modes, restores all eight
-- modes.
pub restore_modes-mode_string : (c : Channel) → restore_modes (mode_string c).0 no_modes ≡ c.modes
unfolding mode_string restore_modes
restore_modes-mode_string c = restore-letters c.modes (nonempty c.key) (positive c.limit)
