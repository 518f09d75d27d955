-- ===== src/Server/Registration/Commands.antt =====
-- PASS, NICK and USER of internal/server/handler.go.
use ircat.Base.{
  ℕ, Bool, true, false, not, ◌&&◌, ◌||◌, Option, none, some, List, [], ◌∷◌, ◌++◌, leb, ◌==◌,
  if◌then◌else◌, all, any, Bytes, codes, nat_eq, bytes_has_eq,
}
use ircat.Base.GoMap.{GoMap, put, has}
use ircat.Base.Int.{ℤ}
use ircat.State.Channel.{UserId, Channel}
use ircat.State.World.{
  World, User, nick_in_use, Result, ok, err, hostmask, find_by_id, rename_user, user_channels,
}
use ircat.Protocol.Message.{Message}
use ircat.Server.Federation.{Output, to_conn, push, record_whowas}
use ircat.Server.Federation.Forward.{forward_to_all_links}
use ircat.Server.Registration.{
  Pending, Config, Session, reply, with_pending, set_site, registered, valid_nickname, try_complete,
  no_nickname_given, already_registred, restricted, erroneus_nickname, nickname_in_use,
  need_more_params, nick_change,
}

unfoldable pub pass_params : Pending → List Bytes → Pending
pass_params p [] = p
pass_params p (password ∷ []) = record p { password = password }
pass_params p (password ∷ version ∷ []) = record p { password = password; pass_version = version }
pass_params p (password ∷ version ∷ flags ∷ _) = record p {
  password = password;
  pass_version = version;
  pass_flags = flags;
}

abbrev pub no_params : List Bytes → Bool
no_params [] = true
no_params (_ ∷ _) = false

unfoldable pub handle_pass : Session → Message → Session
unfolding pass_params
handle_pass s m =
    if registered s.conn
    then reply s already_registred
    else if no_params m.params
    then reply s (need_more_params (codes "PASS"))
    else with_pending s (pass_params s.conn.pending m.params)

-- The NICK message goes to each connection that shares a channel; `seen` starts with the user.
unfoldable pub tell_members :
    Message → GoMap UserId (Unit {0}) → GoMap UserId ℕ → GoMap UserId (Unit {0}) × List Output
tell_members msg seen [] = (seen, [])
tell_members msg seen ((id, _) ∷ ids) =
    let passed = tell_members msg seen ids in
    let later = tell_members msg (put id tt seen) ids in
    if has id seen then passed else (later.0, to_conn id msg ∷ later.1)

unfoldable pub tell_channels : Message → GoMap UserId (Unit {0}) → List Channel → List Output
unfolding tell_members
tell_channels msg seen [] = []
tell_channels msg seen (ch ∷ chs) =
    let (seen', out) = tell_members msg seen ch.members in out ++ tell_channels msg seen' chs

abbrev pub nick_message : User → Bytes → Message
nick_message old nick = record {
  tags = [];
  prefix = hostmask old;
  command = codes "NICK";
  params = nick ∷ [];
}

-- behind `RenameUser`, which changed the world to `w`
unfoldable pub renamed : Session → UserId → User → Bytes → World → ℤ → Session
unfolding tell_channels
renamed s id old nick w now =
    let msg = nick_message old nick in
    let site = record_whowas (record s.site { world = w }) old now in
    let told = push site (tell_channels msg ((id, tt) ∷ []) (user_channels w id)) in
    reply (set_site s (forward_to_all_links told msg)) (nick_change msg)

abbrev pub after_rename : Session → UserId → User → Bytes → ℤ → World × Result (Unit {0}) → Session
after_rename s id old nick now (w, ok _) = renamed s id old nick w now
after_rename s id old nick now (w, err nick_in_use) = reply s (nickname_in_use nick)
after_rename s id old nick now (w, err e) = s

unfoldable pub change_nick : Session → UserId → Bytes → ℤ → Option User → Session
unfolding renamed
change_nick s id nick now none = s
change_nick s id nick now (some old) =
    if any (λ c. c == b'r') old.modes
    then reply s restricted
    else after_rename s id old nick now (rename_user s.site.world id nick)

abbrev pub nick_or_pending : Config → Session → Bytes → ℤ → Option UserId → Session
nick_or_pending cfg s nick now (some id) = change_nick s id nick now (find_by_id s.site.world id)
nick_or_pending cfg s nick now none =
    try_complete cfg (with_pending s (record s.conn.pending { nick = nick; nick_set = true })) now

-- `strings.TrimSpace(s) == ""`, by the ASCII spaces
unfoldable pub is_space : ℕ → Bool
is_space c = c == 32 || leb 9 c && leb c 13

unfoldable pub is_blank : Bytes → Bool
unfolding is_space
is_blank s = all is_space s

unfoldable pub nick_params : Config → Session → List Bytes → ℤ → Session
nick_params cfg s [] now = reply s no_nickname_given
nick_params cfg s (nick ∷ _) now =
    if is_blank nick
    then reply s no_nickname_given
    else if not (valid_nickname nick cfg.nick_length)
    then reply s (erroneus_nickname nick)
    else nick_or_pending cfg s nick now s.conn.user

unfoldable pub handle_nick : Config → Session → Message → ℤ → Session
unfolding nick_params
handle_nick cfg s m now = nick_params cfg s m.params now

abbrev pub user_params : Config → Session → List Bytes → ℤ → Session
user_params cfg s (user ∷ _ ∷ _ ∷ realname ∷ _) now =
    try_complete cfg
      (with_pending s (record s.conn.pending { user = user; realname = realname; user_set = true }))
      now
user_params cfg s _ now = reply s (need_more_params (codes "USER"))

unfoldable pub handle_user : Config → Session → Message → ℤ → Session
handle_user cfg s m now =
    if registered s.conn then reply s already_registred else user_params cfg s m.params now
