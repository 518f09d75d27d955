-- ===== src/Server/Registration/Lifecycle.antt =====
-- The commands before registration, in sequence.
use ircat.Base.{
  ℕ, ◌≡◌, refl, sym, ap, ◌∙◌, inl, inr, true, false, none, some, [], ◌∷◌, arith, if◌then◌else◌,
  Bool-cases, is_some, Bytes, codes, bytes_eq,
}
use ircat.Base.Int.{ℤ}
use ircat.State.Casemap.{CaseMapping}
use ircat.State.World.{next_id, new_world, is_empty, find_by_nick}
use ircat.State.World.Users.Reach.{Reach}
use ircat.Protocol.Text.{to_upper}
use ircat.Protocol.Message.{Message}
use ircat.Server.Registration.Caps.{handle_cap}
use ircat.Server.Registration.Complete.{try_complete_lem, admitted}
use ircat.Server.Registration.{
  Session, Config, pending_user, is_ready, password_ok, try_complete, with_pending, valid_nickname,
}
use ircat.Server.Registration.Commands.{handle_nick, handle_user}
use ircat.Server.Registration.Nicknames.{valid-not_blank, valid-not_empty}
use ircat.State.World.Users.Added.{entered}

abbrev pub nick_line : Bytes → Message
nick_line nick = record { tags = []; prefix = []; command = codes "NICK"; params = nick ∷ [] }

abbrev pub user_line : Bytes → Bytes → Bytes → Bytes → Message
user_line user mode unused realname = record {
  tags = [];
  prefix = [];
  command = codes "USER";
  params = user ∷ mode ∷ unused ∷ realname ∷ [];
}

-- a session in which NICK and USER have come
abbrev pub identified : Session → Bytes → Bytes → Bytes → Session
identified s nick user realname = with_pending s (record s.conn.pending {
  nick = nick;
  nick_set = true;
  user = user;
  realname = realname;
  user_set = true;
})

abbrev nicked : Session → Bytes → Session
nicked s nick = with_pending s (record s.conn.pending { nick = nick; nick_set = true })

abbrev usered : Session → Bytes → Bytes → Session
usered s user realname =
    with_pending s (record s.conn.pending { user = user; realname = realname; user_set = true })

waits :
    (cfg : Config) (s : Session) (now : ℤ)
    → s.conn.user ≡ none
    → is_ready s.conn.pending ≡ false
    → try_complete cfg s now ≡ s
unfolding try_complete
waits cfg s now new h = rw (new, h) refl

nick_step :
    (cfg : Config) (s : Session) (nick : Bytes) (now : ℤ)
    → valid_nickname nick cfg.nick_length ≡ true
    → s.conn.user ≡ none
    → handle_nick cfg s (nick_line nick) now ≡ try_complete cfg (nicked s nick) now
unfolding handle_nick
nick_step cfg s nick now valid new =
    rw (valid-not_blank nick cfg.nick_length valid, valid, new) refl

user_step :
    (cfg : Config) (s : Session) (user mode unused realname : Bytes) (now : ℤ)
    → s.conn.user ≡ none
    → handle_user cfg s (user_line user mode unused realname) now
      ≡ try_complete cfg (usered s user realname) now
unfolding handle_user
user_step cfg s user mode unused realname now new = rw new refl

-- NICK with a valid nick and USER, on a connection that has sent neither, may come in either
-- order: the connection, the world and all that is sent are the same.
pub nick_user_commute :
    (cfg : Config) (s : Session) (nick user mode unused realname : Bytes) (now : ℤ)
    → valid_nickname nick cfg.nick_length ≡ true
    → s.conn.user ≡ none
    → s.conn.pending.nick_set ≡ false
    → s.conn.pending.user_set ≡ false
    → let u = user_line user mode unused realname in
      handle_user cfg (handle_nick cfg s (nick_line nick) now) u now
      ≡ handle_nick cfg (handle_user cfg s u now) (nick_line nick) now
nick_user_commute cfg s nick user mode unused realname now valid new no_nick no_user =
    let u = user_line user mode unused realname in
    let first_nick : handle_nick cfg s (nick_line nick) now ≡ nicked s nick =
      nick_step cfg s nick now valid new ∙ waits cfg (nicked s nick) now new (ground arith) in
    let first_user : handle_user cfg s u now ≡ usered s user realname =
      user_step cfg s user mode unused realname now new
      ∙ waits cfg (usered s user realname) now new (ground arith) in
    ap (λ t. handle_user cfg t u now) first_nick
    ∙ user_step cfg (nicked s nick) user mode unused realname now new
    ∙ sym (nick_step cfg (usered s user realname) nick now valid new)
    ∙ sym (ap (λ t. handle_nick cfg t (nick_line nick) now) first_user)

abbrev pub cap_end : Message
cap_end = record { tags = []; prefix = []; command = codes "CAP"; params = codes "END" ∷ [] }

abbrev ended : Session → Session
ended s = with_pending s (record s.conn.pending { cap_ended = true })

cap_end_step :
    (cfg : Config) (s : Session) (now : ℤ)
    → handle_cap cfg s cap_end now ≡ try_complete cfg (ended s) now
unfolding handle_cap to_upper bytes_eq
cap_end_step cfg s now = refl

-- The connection has its user, whom the nick leads to.
abbrev IsIn : Bytes → Session → Type 0
IsIn nick s = (is_some s.conn.user ≡ true) × (is_some (find_by_nick s.site.world nick) ≡ true)

stays-IsIn_user :
    (cfg : Config) (s : Session) (nick user mode unused realname : Bytes) (now : ℤ)
    → IsIn nick s
    → IsIn nick (handle_user cfg s (user_line user mode unused realname) now)
unfolding handle_user
stays-IsIn_user cfg s nick user mode unused realname now h = rw h.0 h

stays-IsIn_cap :
    (cfg : Config) (s : Session) (nick : Bytes) (now : ℤ)
    → IsIn nick s
    → IsIn nick (handle_cap cfg s cap_end now)
unfolding try_complete
stays-IsIn_cap cfg s nick now h = rw (cap_end_step cfg s now) (rw h.0 h)

module _ (m : CaseMapping) (k : ℕ) (cfg : Config) (now : ℤ) (nick : Bytes) where
  -- a session that lacks nothing but the lines
  record Welcome (s : Session) : Type 0 where
    reached : Reach (new_world m k) s.site.world
    new : s.conn.user ≡ none
    password : password_ok cfg s.conn.pending ≡ true
    free : find_by_nick s.site.world nick ≡ none

  comes-IsIn :
      (s : Session)
      → Welcome s
      → s.conn.pending.nick ≡ nick
      → is_empty nick ≡ false
      → is_ready s.conn.pending ≡ true
      → IsIn nick (try_complete cfg s now)
  comes-IsIn s v e full ready =
      let full' : is_empty s.conn.pending.nick ≡ false = rw e full in
      let free' : find_by_nick s.site.world s.conn.pending.nick ≡ none = rw e v.free in
      let let_in : admitted cfg s ≡ true = rw (ready, v.password, free') refl in
      let (has_user, found) = try_complete_lem cfg s now v.reached full' v.new in
      (
        ap is_some (has_user ∙ ap (λ b. if b then some (next_id s.site.world) else none) let_in),
        ap (λ n. is_some (find_by_nick (try_complete cfg s now).site.world n)) (sym e)
            ∙ ap is_some (
                found
                ∙ ap
                    (λ b.
                      if b
                      then some (entered s.site.world (pending_user s.conn now) now)
                      else find_by_nick s.site.world s.conn.pending.nick)
                    let_in),
      )

  -- NICK or USER, where it does not complete the registration, only notes its words.
  last_line :
      (s : Session)
      → Welcome s
      → s.conn.pending.nick ≡ nick
      → s.conn.pending.nick_set ≡ true
      → s.conn.pending.user_set ≡ true
      → is_empty nick ≡ false
      → IsIn nick (handle_cap cfg s cap_end now)
  last_line s v e n u full = rw (cap_end_step cfg s now) (
      comes-IsIn (ended s)
        (record { reached = v.reached; new = v.new; password = v.password; free = v.free }) e full
        (rw (n, u) (ground arith)))

  after_nick :
      (s : Session) (user mode unused realname : Bytes)
      → Welcome s
      → s.conn.pending.nick ≡ nick
      → s.conn.pending.nick_set ≡ true
      → is_empty nick ≡ false
      → IsIn nick
          (handle_cap cfg (handle_user cfg s (user_line user mode unused realname) now) cap_end now)
  after_nick s user mode unused realname v e n full =
      let t = usered s user realname in
      let vt : Welcome t = record {
        reached = v.reached;
        new = v.new;
        password = v.password;
        free = v.free;
      } in
      rw (user_step cfg s user mode unused realname now v.new)
        (elim (Bool-cases (is_ready t.conn.pending)) [
          | inl r ↦ stays-IsIn_cap cfg (try_complete cfg t now) nick now (comes-IsIn t vt e full r)
          | inr r ↦ rw (waits cfg t now v.new r) (last_line t vt e n refl full)
        ])

-- A connection with no user yet, on a reached world, with the right password if one is asked for,
-- that sends a valid nick that nobody holds, then USER, then CAP END, has its user after these
-- three lines, and the nick leads to a user: whether or not it had begun to negotiate, and
-- whatever had come before.
pub registration_completes :
    {m : CaseMapping} {k : ℕ} (cfg : Config) (s : Session) (nick user mode unused realname : Bytes)
    (now : ℤ)
    → Reach (new_world m k) s.site.world
    → s.conn.user ≡ none
    → valid_nickname nick cfg.nick_length ≡ true
    → find_by_nick s.site.world nick ≡ none
    → password_ok cfg s.conn.pending ≡ true
    → let a = handle_nick cfg s (nick_line nick) now in
      let b = handle_user cfg a (user_line user mode unused realname) now in
      let c = handle_cap cfg b cap_end now in
      (is_some c.conn.user ≡ true) × (is_some (find_by_nick c.site.world nick) ≡ true)
registration_completes {m} {k} cfg s nick user mode unused realname now r new valid free password =
    let t = nicked s nick in
    let vt : Welcome m k cfg now nick t = record {
      reached = r;
      new = new;
      password = password;
      free = free;
    } in
    let full = valid-not_empty nick cfg.nick_length valid in
    rw (nick_step cfg s nick now valid new) (elim (Bool-cases (is_ready t.conn.pending)) [
      | inl e ↦
          stays-IsIn_cap cfg
            (handle_user cfg (try_complete cfg t now) (user_line user mode unused realname) now)
            nick now
            (stays-IsIn_user cfg (try_complete cfg t now) nick user mode unused realname now
              (comes-IsIn m k cfg now nick t vt refl full e))
      | inr e ↦
          rw (waits cfg t now new e)
            (after_nick m k cfg now nick t user mode unused realname vt refl refl full)
    ])
