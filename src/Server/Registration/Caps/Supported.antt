-- ===== src/Server/Registration/Caps/Supported.antt =====
-- A connection never has a capability that the server does not advertise, and a request is all or
-- nothing.
use ircat.Base.{
  ◌≡◌, refl, inl, inr, true, List, [], ◌∷◌, arith, ◌==◌, Bool-cases, all, Bytes, codes, bytes_eq,
  bytes_eq_iff, bytes_has_eq,
}
use ircat.Base.GoMap.{GoMap, put, erase, has, get-put, get-erase}
use ircat.Base.Int.{ℤ}
use ircat.State.World.{
  World, User, Result, ok, err, empty_nick, nick_in_use, no_such_user, no_such_channel, add_user,
}
use ircat.State.Channel.{UserId}
use ircat.Protocol.Text.{to_upper}
use ircat.Protocol.Message.{Message}
use ircat.Server.Registration.{Session, Config, pending_user, promote, try_complete, with_pending}
use ircat.Server.Registration.Caps.{
  is_supported_cap, trim_minus, all_supported, add_accepted_cap, drop_accepted_cap, apply_cap,
  apply_caps, fields, negotiate, cap_req, first_or_empty, cap_subcommand, cap_params, handle_cap,
}

abbrev pub AllSupported : GoMap Bytes (Unit {0}) → Type 0
AllSupported caps = (name : Bytes) → has name caps ≡ true → is_supported_cap name ≡ true

put-AllSupported :
    (caps : GoMap Bytes (Unit {0})) (name : Bytes)
    → is_supported_cap name ≡ true
    → AllSupported caps
    → AllSupported (put name tt caps)
put-AllSupported caps name h a = λ j e. elim (Bool-cases (bytes_eq name j)) [
  | inl same ↦ rw (← (bytes_eq_iff name j).0 same) h
  | inr other ↦ a j (ground (arith, get-put name j tt caps))
]

erase-AllSupported :
    (caps : GoMap Bytes (Unit {0})) (name : Bytes)
    → AllSupported caps
    → AllSupported (erase name caps)
erase-AllSupported caps name a = λ j e. a j (ground (arith, get-erase name j caps))

apply_cap-AllSupported :
    (caps : GoMap Bytes (Unit {0})) (name : Bytes)
    → is_supported_cap (trim_minus name) ≡ true
    → AllSupported caps
    → AllSupported (apply_cap caps name)
unfolding apply_cap add_accepted_cap drop_accepted_cap
apply_cap-AllSupported caps [] h a = put-AllSupported caps [] h a
apply_cap-AllSupported caps (c ∷ s) h a = elim (Bool-cases (c == b'-')) [
  | inl e ↦ rw e (erase-AllSupported caps s a)
  | inr e ↦ rw e (put-AllSupported caps (c ∷ s) (ground arith) a)
]

apply_caps-AllSupported :
    (names : List Bytes) (caps : GoMap Bytes (Unit {0}))
    → all_supported names ≡ true
    → AllSupported caps
    → AllSupported (apply_caps caps names)
unfolding apply_caps all_supported all
apply_caps-AllSupported [] caps h a = a
apply_caps-AllSupported (name ∷ names) caps h a =
    apply_caps-AllSupported names (apply_cap caps name) (ground arith)
      (apply_cap-AllSupported caps name (ground arith) a)

promote-caps :
    (s : Session) (u : User) (o : World × Result UserId)
    → (promote s u o).conn.caps_accepted ≡ s.conn.caps_accepted
unfolding promote
promote-caps s u (w, ok id) = refl
promote-caps s u (w, err empty_nick) = refl
promote-caps s u (w, err nick_in_use) = refl
promote-caps s u (w, err no_such_user) = refl
promote-caps s u (w, err no_such_channel) = refl

try_complete-caps :
    (cfg : Config) (s : Session) (now : ℤ)
    → (try_complete cfg s now).conn.caps_accepted ≡ s.conn.caps_accepted
unfolding try_complete
try_complete-caps cfg s now = ground (
  arith,
  promote-caps s (pending_user s.conn now) (add_user s.site.world (pending_user s.conn now) now),
)

cap_req-AllSupported :
    (s : Session) (req : Bytes)
    → AllSupported s.conn.caps_accepted
    → AllSupported (cap_req s req).conn.caps_accepted
unfolding cap_req
cap_req-AllSupported s req a = elim (Bool-cases (all_supported (fields req))) [
  | inl e ↦ rw e (apply_caps-AllSupported (fields req) s.conn.caps_accepted e a)
  | inr e ↦ rw e a
]

module _ (cfg : Config) (s : Session) (now : ℤ) (a : AllSupported s.conn.caps_accepted) where
  subcommand-AllSupported :
      (sub : Bytes) (rest : List Bytes)
      → AllSupported (cap_subcommand cfg s sub rest now).conn.caps_accepted
  unfolding cap_subcommand
  subcommand-AllSupported sub rest = elim (Bool-cases (bytes_eq sub (codes "LS"))) [
    | inl e ↦ rw e a
    | inr e ↦ elim (Bool-cases (bytes_eq sub (codes "LIST"))) [
      | inl f ↦ rw (e, f) a
      | inr f ↦ elim (Bool-cases (bytes_eq sub (codes "REQ"))) [
        | inl g ↦ rw (e, f, g) (cap_req-AllSupported (negotiate s) (first_or_empty rest) a)
        | inr g ↦ elim (Bool-cases (bytes_eq sub (codes "END"))) [
          | inl h ↦
              rw
                (
                  e,
                  f,
                  g,
                  h,
                  try_complete-caps cfg
                      (with_pending s (record s.conn.pending { cap_ended = true })) now,
                )
                a
          | inr h ↦ rw (e, f, g, h) a
        ]
      ]
    ]
  ]

  params-AllSupported :
      (params : List Bytes) → AllSupported (cap_params cfg s params now).conn.caps_accepted
  params-AllSupported [] = a
  params-AllSupported (sub ∷ rest) = subcommand-AllSupported (to_upper sub) rest

-- Every CAP command keeps it so that each capability a connection has accepted is one that the
-- server advertises.
pub handle_cap-AllSupported :
    (cfg : Config) (s : Session) (m : Message) (now : ℤ)
    → AllSupported s.conn.caps_accepted
    → AllSupported (handle_cap cfg s m now).conn.caps_accepted
unfolding handle_cap
handle_cap-AllSupported cfg s m now a = params-AllSupported cfg s now a m.params
