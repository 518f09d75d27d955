-- ===== src/Federation/Nick/Announced.antt =====
-- The line that a burst sends of a user, read by the peer.
use ircat.Base.{ℕ, ◌^◌, ◌<◌, ◌≡◌, refl, false, Bytes}
use ircat.Base.Int.{ℤ, pos}
use ircat.State.World.{User}
use ircat.Server.Atoi.Digits.{atoi-itoa_positive}
use ircat.Federation.Link.{Node}
use ircat.Federation.Burst.{user_line, format_int}
use ircat.Federation.Nick.{Incoming, announce, read_incoming, nick_params, handle_remote_nick}

-- a user as a peer is told of it
abbrev pub told : Bytes → User → Incoming
told me u = record {
  nick = u.nick;
  user = u.user;
  host = u.host;
  server = me;
  modes = u.modes;
  ts = u.ts;
  realname = u.realname;
}

-- The NICK line that a burst sends of a user who is no service and whose timestamp is below 2^63
-- is read by a peer as that nick, user, host, modes, timestamp and real name, with the sender as
-- home.
pub handle_remote_nick-user_line :
    (n : Node) (me : Bytes) (u : User) (now : ℤ) (t : ℕ)
    → u.service ≡ false
    → u.ts ≡ pos t
    → t < 2 ^ 63
    → handle_remote_nick n (user_line me u) now ≡ announce n (told me u) now
unfolding user_line handle_remote_nick nick_params read_incoming format_int
handle_remote_nick-user_line n me u now t plain e small =
    rw (plain, e, atoi-itoa_positive t small) refl
