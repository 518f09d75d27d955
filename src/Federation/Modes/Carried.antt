-- ===== src/Federation/Modes/Carried.antt =====
-- What of a channel's modes a burst carries to a peer.
use ircat.Base.{ℕ, Bool, true, false, ◌&&◌, ◌||◌, List, if◌then◌else◌, Bytes}
use ircat.Base.Int.{ℤ}
use ircat.State.Channel.{ChannelModes, Channel}
use ircat.State.Channel.Modes.{ModeField, write}
use ircat.State.World.{World}
use ircat.Federation.Modes.{remote_modes}

-- the letter of a mode in a mode word, and whether a peer knows it
letter : ModeField → ℕ
letter ModeField.invite_only = b'i'
letter ModeField.moderated = b'm'
letter ModeField.no_external = b'n'
letter ModeField.private = b'p'
letter ModeField.secret = b's'
letter ModeField.topic_locked = b't'
letter ModeField.anonymous = b'a'
letter ModeField.server_reop = b'r'

abbrev known : ModeField → Bool
known ModeField.anonymous = false
known ModeField.server_reop = false
known f = true

-- What one letter of the word does to the modes.
raise : ModeField → Bool → ChannelModes → ChannelModes
raise f b m = if b && known f then write f true m else m

abbrev with_modes : Channel → ChannelModes → Channel
with_modes c m = record c { modes = m }

-- the letters of a mode word, in its order
raised : ChannelModes → ChannelModes → ChannelModes
raised m o = raise ModeField.server_reop m.server_reop (
    raise ModeField.anonymous m.anonymous (
      raise ModeField.secret m.secret (
        raise ModeField.private m.private (
          raise ModeField.invite_only m.invite_only (
            raise ModeField.moderated m.moderated (
              raise ModeField.topic_locked m.topic_locked
                (raise ModeField.no_external m.no_external o)))))))

-- what a peer makes of the modes `o` that a channel has there
abbrev pub added_to : ChannelModes → ChannelModes → ChannelModes
added_to o m = record o {
  invite_only = o.invite_only || m.invite_only;
  moderated = o.moderated || m.moderated;
  no_external = o.no_external || m.no_external;
  private = o.private || m.private;
  secret = o.secret || m.secret;
  topic_locked = o.topic_locked || m.topic_locked;
}

module _ (w : World) (now : ℤ) where
  -- the run from here on, with sign `+`
  abbrev rest_of : Bytes → Channel → List Bytes → Channel
  rest_of s c args = remote_modes w now s b'+' (c, args)
