-- ===== src/Server/Messages/Silent.antt =====
-- What a NOTICE answers.
use ircat.Base.{
  ◌≡◌, refl, ◌∙◌, inl, inr, Bool, true, false, not, ◌&&◌, Option, none, some, List, [], ◌∷◌, ◌++◌,
  arith, ◌==◌, Bool-cases, any, filterb, Bytes, codes, bytes_eq,
}
use ircat.Base.Int.{ℤ}
use ircat.Protocol.Message.{Message}
use ircat.Protocol.Text.{split}
use ircat.State.Channel.{UserId, Channel}
use ircat.State.World.{User, is_empty, find_by_nick, find_by_id}
use ircat.Server.Modes.Handler.{is_channel_name}
use ircat.Server.Messages.{
  MessageReply, echo, Talk, text_message, find_target, gag, to_channel_if, to_channel, to_found,
  to_nick_found, to_nick, to_name, trim_space_left, trim_space_right, deliver_mask_broadcast,
  deliver_one_target, deliver_targets, deliver_params, deliver_as_user, deliver_as_conn,
  deliver_conn_message, handle_notice,
}

abbrev pub is_echo : MessageReply → Bool
is_echo (echo _) = true
is_echo _ = false

-- the replies that are no echo
abbrev pub complaints : Talk → List MessageReply
complaints t = filterb (λ r. not (is_echo r)) t.replies

filterb-echo :
    (rs : List MessageReply) (m : Message)
    → filterb (λ r. not (is_echo r)) (rs ++ echo m ∷ []) ≡ filterb (λ r. not (is_echo r)) rs
unfolding filterb
filterb-echo [] m = refl
filterb-echo (r ∷ rs) m = ground (arith, filterb-echo rs m)

module _ (u : User) (fresh text command : Bytes)
    (h : bytes_eq command (codes "PRIVMSG") ≡ false) where
  abbrev Silent : Talk → Talk → Type 0
  Silent t t' = complaints t' ≡ complaints t

  channel_if-Silent :
      (t : Talk) (ch : Channel) (o : Option MessageReply)
      → Silent t (to_channel_if t u ch text command false o)
  channel_if-Silent t ch none = refl
  channel_if-Silent t ch (some r) = refl

  found-Silent :
      (t : Talk) (target : Bytes) (o : Option Channel)
      → Silent t (to_found t u target text command false o)
  unfolding to_channel
  found-Silent t target none = refl
  found-Silent t target (some ch) = channel_if-Silent t ch (gag t.site.world ch u)

  nick_found-Silent :
      (t : Talk) (target : Bytes) (o : Option User)
      → Silent t (to_nick_found t u target text command false o)
  nick_found-Silent t target none = refl
  nick_found-Silent t target (some dest) =
      rw h (ground (arith, filterb-echo t.replies (text_message u command dest.nick text)))

  name-Silent : (t : Talk) (target : Bytes) → Silent t (to_name t u fresh target text command false)
  unfolding to_nick
  name-Silent t target = elim (Bool-cases (is_channel_name target)) [
    | inl e ↦ rw e (found-Silent t target (find_target t.site.world fresh target))
    | inr e ↦ rw e (
        nick_found-Silent t (trim_space_right (trim_space_left target))
          (find_by_nick t.site.world (trim_space_right (trim_space_left target))))
  ]

  mask-Silent :
      (t : Talk) (mask : Bytes) (host : Bool)
      → Silent t (deliver_mask_broadcast t u mask text command host false)
  unfolding deliver_mask_broadcast
  mask-Silent t mask host = elim (Bool-cases (any (λ c. c == b'o') u.modes)) [
    | inl e ↦ rw e refl
    | inr e ↦ rw e refl
  ]

  one-Silent :
      (t : Talk) (target : Bytes)
      → Silent t (deliver_one_target t u fresh target text command false)
  unfolding deliver_one_target
  one-Silent t [] = name-Silent t []
  one-Silent t (c ∷ mask) = elim (Bool-cases (not (is_empty mask) && c == b'$')) [
    | inl e ↦ rw e (mask-Silent t mask false)
    | inr e ↦ elim (Bool-cases (not (is_empty mask) && c == b'#' && any (λ b. b == b'.') mask)) [
      | inl f ↦ rw (e, f) (mask-Silent t mask true)
      | inr f ↦ rw (e, f) (name-Silent t (c ∷ mask))
    ]
  ]

  targets-Silent :
      (ts : List Bytes) (t : Talk) → Silent t (deliver_targets t u fresh ts text command false)
  unfolding deliver_targets
  targets-Silent [] t = refl
  targets-Silent (target ∷ ts) t =
      targets-Silent ts (deliver_one_target t u fresh target text command false)
      ∙ one-Silent t target

as_user-silent :
    (t : Talk) (limit : ℤ) (fresh : Bytes) (params : List Bytes) (o : Option User)
    → complaints (deliver_as_user t limit true fresh params (codes "NOTICE") false o) ≡ complaints t
unfolding deliver_params bytes_eq
as_user-silent t limit fresh params none = refl
as_user-silent t limit fresh [] (some u) = refl
as_user-silent t limit fresh (targets ∷ []) (some u) = refl
as_user-silent t limit fresh (targets ∷ text ∷ _) (some u) =
    ground (arith, targets-Silent u fresh text (codes "NOTICE") refl (split b',' targets) t)

as_conn-silent :
    (t : Talk) (limit : ℤ) (fresh : Bytes) (params : List Bytes) (o : Option UserId)
    → complaints (deliver_as_conn t limit true fresh params (codes "NOTICE") false o) ≡ complaints t
as_conn-silent t limit fresh params none = refl
as_conn-silent t limit fresh params (some id) =
    as_user-silent t limit fresh params (find_by_id t.site.world id)

-- A NOTICE for which the bucket has a token is answered by nothing but echoes, whatever its
-- targets, also where they are unknown or shut to the sender.
pub notice_silent :
    (t : Talk) (limit : ℤ) (fresh : Bytes) (m : Message)
    → complaints (handle_notice t limit true fresh m) ≡ complaints t
unfolding handle_notice deliver_conn_message
notice_silent t limit fresh m = as_conn-silent t limit fresh m.params t.conn.user
