-- ===== src/Server/Federation/Recipients.antt =====
-- To whom a QUIT or a NICK of a user goes: `deliverPerUserChannels`.
use ircat.Base.{
  ℕ, ◌≡◌, refl, ap, ◌∙◌, inl, inr, Bool, not, ◌&&◌, ◌||◌, some, List, [], ◌∷◌, ◌++◌, append-nil,
  arith, ◌==◌, if◌then◌else◌, ==_iff, Bool-cases, nat_eq,
}
use ircat.Base.GoMap.{GoMap, get, put, has, get-put}
use ircat.State.Channel.{UserId, Channel, is_member}
use ircat.State.World.{World, User, find_by_nick, user_channels}
use ircat.Protocol.Message.{Message}
use ircat.Server.Federation.{
  Site, Output, to_conn, to_user, to_link, drop_conn, is_local, as_seen_in, send_members,
  send_channels, sender_nick_from_prefix, deliver_per_user_channels,
}

-- the messages that are sent to a user, in order
unfoldable pub sent_to : UserId → List Output → List Message
sent_to id [] = []
sent_to id (to_conn j m ∷ out) = let rest = sent_to id out in if j == id then m ∷ rest else rest
sent_to id (to_user j m ∷ out) = let rest = sent_to id out in if j == id then m ∷ rest else rest
sent_to id (to_link _ _ ∷ out) = sent_to id out
sent_to id (drop_conn _ _ ∷ out) = sent_to id out

-- what is sent to links, and which connections are ended
unfoldable pub elsewhere : List Output → List Output
elsewhere [] = []
elsewhere (to_conn _ _ ∷ out) = elsewhere out
elsewhere (to_user _ _ ∷ out) = elsewhere out
elsewhere (to_link p m ∷ out) = to_link p m ∷ elsewhere out
elsewhere (drop_conn n r ∷ out) = drop_conn n r ∷ elsewhere out

pub sent_to-append :
    (id : UserId) (xs ys : List Output) → sent_to id (xs ++ ys) ≡ sent_to id xs ++ sent_to id ys
unfolding sent_to
sent_to-append id [] ys = refl
sent_to-append id (to_conn j m ∷ xs) ys = ground (arith, sent_to-append id xs ys)
sent_to-append id (to_user j m ∷ xs) ys = ground (arith, sent_to-append id xs ys)
sent_to-append id (to_link p m ∷ xs) ys = sent_to-append id xs ys
sent_to-append id (drop_conn n r ∷ xs) ys = sent_to-append id xs ys

pub elsewhere-append : (xs ys : List Output) → elsewhere (xs ++ ys) ≡ elsewhere xs ++ elsewhere ys
unfolding elsewhere
elsewhere-append [] ys = refl
elsewhere-append (to_conn j m ∷ xs) ys = elsewhere-append xs ys
elsewhere-append (to_user j m ∷ xs) ys = elsewhere-append xs ys
elsewhere-append (to_link p m ∷ xs) ys = ap (λ l. to_link p m ∷ l) (elsewhere-append xs ys)
elsewhere-append (drop_conn n r ∷ xs) ys = ap (λ l. drop_conn n r ∷ l) (elsewhere-append xs ys)

-- a message or none
abbrev pub only_if : Bool → Message → List Message
only_if b m = if b then m ∷ [] else []

-- the message as it is seen in the first of the channels that lists the user
unfoldable pub heard_in : UserId → Message → List Channel → List Message
heard_in id msg [] = []
heard_in id msg (ch ∷ chs) =
    let rest = heard_in id msg chs in if is_member ch id then as_seen_in ch msg ∷ [] else rest

module _ (w : World) (me id : UserId) where
  -- a user to whom the message may go and has not gone yet
  abbrev awaits : GoMap UserId (Unit {0}) → Bool
  awaits seen = is_local w id && not (id == me) && not (has id seen)

  members_once :
      (msg : Message) (seen : GoMap UserId (Unit {0})) (ids : GoMap UserId ℕ)
      → (sent_to id (send_members w me msg seen ids).1 ≡ only_if (awaits seen && has id ids) msg)
        × (has id (send_members w me msg seen ids).0 ≡ (has id seen || awaits seen && has id ids))
  unfolding send_members get sent_to
  members_once msg seen [] = ground arith
  members_once msg seen ((j, f) ∷ ids) =
      elim (Bool-cases (has j seen || j == me || not (is_local w j))) [
        | inl e ↦ rw e (ground (arith, ==_iff j id, members_once msg seen ids))
        | inr e ↦ rw e (
            ground (arith, ==_iff j id, members_once msg (put j tt seen) ids, get-put j id tt seen))
      ]

  members_elsewhere :
      (msg : Message) (seen : GoMap UserId (Unit {0})) (ids : GoMap UserId ℕ)
      → elsewhere (send_members w me msg seen ids).1 ≡ []
  unfolding send_members elsewhere
  members_elsewhere msg seen [] = refl
  members_elsewhere msg seen ((j, f) ∷ ids) =
      elim (Bool-cases (has j seen || j == me || not (is_local w j))) [
        | inl e ↦ rw e (members_elsewhere msg seen ids)
        | inr e ↦ rw e (members_elsewhere msg (put j tt seen) ids)
      ]

  channels_once :
      (msg : Message) (seen : GoMap UserId (Unit {0})) (chs : List Channel)
      → sent_to id (send_channels w me msg seen chs)
        ≡ (if awaits seen then heard_in id msg chs else [])
  unfolding send_channels sent_to heard_in
  channels_once msg seen [] = ground arith
  channels_once msg seen (ch ∷ chs) =
      let (seen', out) = send_members w me (as_seen_in ch msg) seen ch.members in
      let here = members_once (as_seen_in ch msg) seen ch.members in
      sent_to-append id out (send_channels w me msg seen' chs)
      ∙ ground (arith, here.0, here.1, channels_once msg seen' chs)

  channels_elsewhere :
      (msg : Message) (seen : GoMap UserId (Unit {0})) (chs : List Channel)
      → elsewhere (send_channels w me msg seen chs) ≡ []
  unfolding send_channels elsewhere
  channels_elsewhere msg seen [] = refl
  channels_elsewhere msg seen (ch ∷ chs) =
      let (seen', out) = send_members w me (as_seen_in ch msg) seen ch.members in
      elsewhere-append out (send_channels w me msg seen' chs)
      ∙ rw (members_elsewhere (as_seen_in ch msg) seen ch.members)
          (channels_elsewhere msg seen' chs)

awaits_nil :
    (w : World) (me id : UserId) (l : List Message)
    → (if awaits w me id [] then l else []) ≡ (if is_local w id && not (id == me) then l else [])
unfolding get
awaits_nil w me id l = ground arith

-- what a user hears of a message of another
abbrev pub heard_of : World → User → Message → UserId → List Message
heard_of w u msg id =
    if is_local w id && not (id == u.id) then heard_in id msg (user_channels w u.id) else []

-- deliverPerUserChannels with a prefix that names a user hands each other user of this node who
-- shares a channel with that user the message, once however many they share and as it is seen in
-- the first of them; it hands nothing to anybody else, sends nothing to a link and ends no
-- connection.
pub deliver_per_user_once :
    (s : Site) (msg : Message) (u : User) (id : UserId)
    → find_by_nick s.world (sender_nick_from_prefix msg.prefix) ≡ some u
    → let s' = deliver_per_user_channels s msg in
      (sent_to id s'.sent ≡ sent_to id s.sent ++ heard_of s.world u msg id)
      × (elsewhere s'.sent ≡ elsewhere s.sent)
unfolding deliver_per_user_channels
deliver_per_user_once s msg u id h =
    let out = send_channels s.world u.id msg [] (user_channels s.world u.id) in
    rw (h, deliver_per_user_channels)
      (
        sent_to-append id s.sent out
            ∙ ap (λ k. sent_to id s.sent ++ k)
                (channels_once s.world u.id id msg [] (user_channels s.world u.id)
                  ∙ awaits_nil s.world u.id id (heard_in id msg (user_channels s.world u.id))),
        elsewhere-append s.sent out
            ∙ ap (λ k. elsewhere s.sent ++ k)
                (channels_elsewhere s.world u.id id msg [] (user_channels s.world u.id))
            ∙ append-nil (elsewhere s.sent),
      )
