-- ===== src/Server/Messages/Remote.antt =====
-- A message to nicks, some of which may be of users of other nodes.
use ircat.Base.{
  ◌≡◌, refl, ap, ◌∙◌, Bool, true, not, ◌&&◌, ◌||◌, Option, none, some, List, [], ◌∷◌, ◌++◌,
  append-nil, append_assoc, arith, ◌==◌, if◌then◌else◌, ==_iff, all, Bytes, nat_eq,
}
use ircat.Base.GoMap.{has}
use ircat.Protocol.Message.{Message}
use ircat.State.Channel.{UserId}
use ircat.State.World.{User, is_empty, find_by_nick}
use ircat.Server.Modes.Handler.{is_channel_name}
use ircat.Server.Federation.{Output, to_conn, to_user, push}
use ircat.Server.Federation.Recipients.{sent_to, elsewhere, sent_to-append, elsewhere-append}
use ircat.Server.Messages.{
  Talk, text_message, trim_space_left, trim_space_right, to_nick_found, to_nick, deliver_one_target,
  deliver_targets,
}

-- the target as it is looked up
abbrev pub trimmed : Bytes → Bytes
trimmed target = trim_space_right (trim_space_left target)

-- neither the name of a channel nor a mask
abbrev pub is_nick_form : Bytes → Bool
is_nick_form [] = true
is_nick_form (c ∷ mask) = not (is_channel_name (c ∷ mask)) && not (not (is_empty mask) && c == b'$')

-- who has a connection or a bot
abbrev pub is_here : Talk → UserId → Bool
is_here t id = has id t.conns || has id t.bots

module _ (u : User) (text command : Bytes) where
  module _ (t : Talk) (id : UserId) where
    abbrev text_if_found : Option User → List Message
    text_if_found none = []
    text_if_found (some dest) =
        if dest.id == id && is_here t id then text_message u command dest.nick text ∷ [] else []

    -- what a user gets of a text to a list of nicks: one message for each that leads to the user
    unfoldable pub texts_for : List Bytes → List Message
    texts_for [] = []
    texts_for (target ∷ targets) =
        text_if_found (find_by_nick t.site.world (trimmed target)) ++ texts_for targets

  -- the sends for one target
  abbrev out_if_found : Talk → Option User → List Output
  out_if_found t none = []
  out_if_found t (some dest) =
      let msg = text_message u command dest.nick text in
      if has dest.id t.conns
      then to_conn dest.id msg ∷ []
      else if has dest.id t.bots
      then to_user dest.id msg ∷ []
      else []

  outs : Talk → List Bytes → List Output
  outs t [] = []
  outs t (target ∷ targets) =
      out_if_found t (find_by_nick t.site.world (trimmed target)) ++ outs t targets

  module _ (emit : Bool) where
    -- The talk after sends to users, but for its replies.
    abbrev After : Talk → List Output → Talk → Type 0
    After t out t' = (t'.site ≡ push t.site out) × (t'.conns ≡ t.conns) × (t'.bots ≡ t.bots)

    found-After :
        (t : Talk) (nick : Bytes) (o : Option User)
        → After t (out_if_found t o) (to_nick_found t u nick text command emit o)
    found-After t nick none = ground (arith, append-nil t.site.sent)
    found-After t nick (some dest) = ground (arith, append-nil t.site.sent)

    goes_to_nick :
        (t : Talk) (fresh target : Bytes)
        → is_nick_form target ≡ true
        → deliver_one_target t u fresh target text command emit
          ≡ to_nick t u target text command emit
    unfolding deliver_one_target is_channel_name
    goes_to_nick t fresh [] h = refl
    goes_to_nick t fresh (c ∷ mask) h = ground arith

    target-After :
        (t : Talk) (fresh target : Bytes)
        → is_nick_form target ≡ true
        → After t
            (out_if_found t (find_by_nick t.site.world (trimmed target)))
            (deliver_one_target t u fresh target text command emit)
    unfolding to_nick
    target-After t fresh target h =
        rw (goes_to_nick t fresh target h)
          (found-After t (trimmed target) (find_by_nick t.site.world (trimmed target)))

    outs_same :
        (t t' : Talk) (targets : List Bytes)
        → t'.site.world ≡ t.site.world
        → t'.conns ≡ t.conns
        → t'.bots ≡ t.bots
        → outs t' targets ≡ outs t targets
    unfolding outs
    outs_same t t' [] hw hc hb = refl
    outs_same t t' (target ∷ targets) hw hc hb =
        rw (hw, outs_same t t' targets hw hc hb)
          (ap (λ o. o ++ outs t targets) (out_same (find_by_nick t.site.world (trimmed target))))
      where
        out_same : (o : Option User) → out_if_found t' o ≡ out_if_found t o
        out_same none = refl
        out_same (some dest) = rw (hc, hb) refl

    all-After :
        (fresh : Bytes) (targets : List Bytes) (t : Talk)
        → all is_nick_form targets ≡ true
        → (deliver_targets t u fresh targets text command emit).site ≡ push t.site (outs t targets)
    unfolding deliver_targets outs all
    all-After fresh [] t h = ground (arith, append-nil t.site.sent)
    all-After fresh (target ∷ targets) t h =
        let t' = deliver_one_target t u fresh target text command emit in
        let first = target-After t fresh target (ground arith) in
        let out = out_if_found t (find_by_nick t.site.world (trimmed target)) in
        all-After fresh targets t' (ground arith)
        ∙ rw (outs_same t t' targets (ap (λ s. s.world) first.0) first.1 first.2, first.0)
            (ap (λ l. record t.site { sent = l }) (append_assoc t.site.sent out (outs t targets)))

  module _ (t : Talk) (id : UserId) where
    found_texts : (o : Option User) → sent_to id (out_if_found t o) ≡ text_if_found t id o
    unfolding sent_to
    found_texts none = refl
    found_texts (some dest) = ground (arith, ==_iff dest.id id)

    elsewhere-found : (o : Option User) → elsewhere (out_if_found t o) ≡ []
    unfolding elsewhere
    elsewhere-found none = refl
    elsewhere-found (some dest) = ground arith

    sent_to-outs : (targets : List Bytes) → sent_to id (outs t targets) ≡ texts_for t id targets
    unfolding outs texts_for sent_to
    sent_to-outs [] = refl
    sent_to-outs (target ∷ targets) =
        let o = find_by_nick t.site.world (trimmed target) in
        sent_to-append id (out_if_found t o) (outs t targets)
        ∙ rw (found_texts o, sent_to-outs targets) refl

    elsewhere-outs : (targets : List Bytes) → elsewhere (outs t targets) ≡ []
    unfolding outs elsewhere
    elsewhere-outs [] = refl
    elsewhere-outs (target ∷ targets) =
        let o = find_by_nick t.site.world (trimmed target) in
        elsewhere-append (out_if_found t o) (outs t targets)
        ∙ rw (elsewhere-found o, elsewhere-outs targets) refl

-- A PRIVMSG or NOTICE to a list of targets none of which is the name of a channel or a mask: a
-- user with a connection or a bot at this node is handed the text once for each target that
-- FindByNick leads to the user, in their order; a user with neither, as a user of another node, is
-- handed nothing; and nothing is sent to a link.
pub nicks_heard :
    (u : User) (text command : Bytes) (emit : Bool) (id : UserId) (fresh : Bytes) (t : Talk)
    (targets : List Bytes)
    → all is_nick_form targets ≡ true
    → let t' = deliver_targets t u fresh targets text command emit in
      (sent_to id t'.site.sent ≡ sent_to id t.site.sent ++ texts_for u text command t id targets)
      × (elsewhere t'.site.sent ≡ elsewhere t.site.sent)
nicks_heard u text command emit id fresh t targets h =
    let out = outs u text command t targets in
    rw (all-After u text command emit fresh targets t h) (
      sent_to-append id t.site.sent out
          ∙ ap (λ l. sent_to id t.site.sent ++ l) (sent_to-outs u text command t id targets),
      elsewhere-append t.site.sent out
          ∙ ap (λ l. elsewhere t.site.sent ++ l) (elsewhere-outs u text command t id targets)
          ∙ append-nil (elsewhere t.site.sent),
    )
