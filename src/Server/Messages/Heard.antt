-- ===== src/Server/Messages/Heard.antt =====
-- Who hears what is said in a channel.
use ircat.Base.{Bool, not, ◌&&◌, ◌||◌, nat_eq, bytes_has_eq}
use ircat.Base.GoMap.{GoMap}
use ircat.Protocol.Message.{Message}
use ircat.State.Casemap.{fold}
use ircat.State.Membership.{is_op, is_voice}
use ircat.State.Channel.{Channel, is_member, membership}
use ircat.State.Channel.Masks.{matches_quiet}
use ircat.State.World.{World, User, hostmask}

-- A member that is op or has voice may speak. Anybody else may where the channel is not moderated
-- and no quiet mask matches, and where it is a member or outsiders may speak.
abbrev pub may_speak : World → Channel → User → Bool
may_speak w ch u =
    let mem = membership ch u.id in
    (is_member ch u.id || not ch.modes.no_external)
    && (is_op mem
        || is_voice mem
        || not ch.modes.moderated && not (matches_quiet ch (hostmask u) (fold w.mapping)))
