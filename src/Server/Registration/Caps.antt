-- ===== src/Server/Registration/Caps.antt =====
-- CAP: `handleCap` of internal/server/handler.go with the capabilities of caps.go.
pub mod Supported
use ircat.Base.{
  Bool, true, List, [], ◌∷◌, ◌++◌, ◌==◌, if◌then◌else◌, all, any, Bytes, codes, bytes_eq,
  bytes_has_eq,
}
use ircat.Base.GoMap.{GoMap, put, erase}
use ircat.Base.Int.{ℤ}
use ircat.Protocol.Text.{to_upper}
use ircat.Protocol.Message.{Message}
use ircat.Server.Registration.{Session, Config, cap_reply, reply, with_pending, try_complete}
use ircat.Server.Registration.Commands.{is_space}

abbrev pub supported_cap_list : List Bytes
supported_cap_list =
    codes "message-tags"
    ∷ codes "server-time"
    ∷ codes "echo-message"
    ∷ codes "multi-prefix"
    ∷ codes "userhost-in-names"
    ∷ codes "away-notify"
    ∷ codes "invite-notify"
    ∷ codes "sasl"
    ∷ codes "account-tag"
    ∷ codes "extended-join"
    ∷ codes "batch"
    ∷ codes "chghost"
    ∷ []

unfoldable pub is_supported_cap : Bytes → Bool
unfolding any
is_supported_cap name = any (λ c. bytes_eq c name) supported_cap_list

unfoldable pub join_spaces : List Bytes → Bytes
join_spaces [] = []
join_spaces (s ∷ []) = s
join_spaces (s ∷ t ∷ l) = s ++ (b' ' ∷ join_spaces (t ∷ l))

abbrev pub supported_caps : Bytes
supported_caps = join_spaces supported_cap_list

-- `strings.Fields`, by the ASCII spaces; `word` is the field that has begun
abbrev pub close_word : Bytes → List Bytes → List Bytes
close_word [] l = l
close_word (c ∷ w) l = (c ∷ w) ∷ l

unfoldable pub fields_from : Bytes → Bytes → List Bytes
unfolding is_space
fields_from word [] = close_word word []
fields_from word (c ∷ s) =
    let ended = fields_from [] s in
    let more = fields_from (word ++ c ∷ []) s in if is_space c then close_word word ended else more

abbrev pub fields : Bytes → List Bytes
fields s = fields_from [] s

-- `strings.TrimPrefix(name, "-")`
abbrev pub trim_minus : Bytes → Bytes
trim_minus [] = []
trim_minus (c ∷ s) = if c == b'-' then s else c ∷ s

unfoldable pub all_supported : List Bytes → Bool
unfolding is_supported_cap all
all_supported names = all (λ name. is_supported_cap (trim_minus name)) names

unfoldable pub add_accepted_cap : GoMap Bytes (Unit {0}) → Bytes → GoMap Bytes (Unit {0})
add_accepted_cap caps name = put name tt caps

unfoldable pub drop_accepted_cap : GoMap Bytes (Unit {0}) → Bytes → GoMap Bytes (Unit {0})
drop_accepted_cap caps name = erase name caps

-- one round of the loop that applies a request
unfoldable pub apply_cap : GoMap Bytes (Unit {0}) → Bytes → GoMap Bytes (Unit {0})
unfolding add_accepted_cap drop_accepted_cap
apply_cap caps [] = add_accepted_cap caps []
apply_cap caps (c ∷ s) =
    if c == b'-' then drop_accepted_cap caps s else add_accepted_cap caps (c ∷ s)

unfoldable pub apply_caps : GoMap Bytes (Unit {0}) → List Bytes → GoMap Bytes (Unit {0})
unfolding apply_cap
apply_caps caps [] = caps
apply_caps caps (name ∷ names) = apply_caps (apply_cap caps name) names

abbrev pub negotiate : Session → Session
negotiate s = with_pending s (record s.conn.pending { cap_negotiating = true })

abbrev pub set_caps : Session → GoMap Bytes (Unit {0}) → Session
set_caps s caps = record s { conn = record s.conn { caps_accepted = caps } }

unfoldable pub cap_req : Session → Bytes → Session
unfolding apply_caps all_supported
cap_req s req =
    if all_supported (fields req)
    then reply (set_caps s (apply_caps s.conn.caps_accepted (fields req)))
        (cap_reply (codes "ACK") req)
    else reply s (cap_reply (codes "NAK") req)

-- the reply lists the keys; the source sorts them
unfoldable pub accepted_caps : GoMap Bytes (Unit {0}) → List Bytes
accepted_caps [] = []
accepted_caps ((name, _) ∷ m) = name ∷ accepted_caps m

abbrev pub first_or_empty : List Bytes → Bytes
first_or_empty [] = []
first_or_empty (p ∷ _) = p

unfoldable pub cap_subcommand : Config → Session → Bytes → List Bytes → ℤ → Session
unfolding cap_req
cap_subcommand cfg s sub rest now =
    if bytes_eq sub (codes "LS")
    then reply (negotiate s) (cap_reply (codes "LS") supported_caps)
    else if bytes_eq sub (codes "LIST")
    then reply s (cap_reply (codes "LIST") (join_spaces (accepted_caps s.conn.caps_accepted)))
    else if bytes_eq sub (codes "REQ")
    then cap_req (negotiate s) (first_or_empty rest)
    else if bytes_eq sub (codes "END")
    then try_complete cfg (with_pending s (record s.conn.pending { cap_ended = true })) now
    else s

abbrev pub cap_params : Config → Session → List Bytes → ℤ → Session
cap_params cfg s [] now = s
cap_params cfg s (sub ∷ rest) now = cap_subcommand cfg s (to_upper sub) rest now

unfoldable pub handle_cap : Config → Session → Message → ℤ → Session
unfolding cap_subcommand
handle_cap cfg s m now = cap_params cfg s m.params now
