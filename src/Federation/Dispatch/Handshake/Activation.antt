-- ===== src/Federation/Dispatch/Handshake/Activation.antt =====
-- What makes a link active.
use ircat.Base.{
  ℕ, ◌≡◌, refl, inl, inr, Bool, true, false, Option, none, some, List, [], ◌∷◌, arith, Bool-cases,
  Option-cases, Bytes,
}
use ircat.Base.Int.{ℤ}
use ircat.Protocol.Message.{Message}
use ircat.Federation.Link.{
  Link, Node, is_active, close, send, handle_pass, handle_server, svinfo_accepted, send_svinfo,
}
use ircat.State.World.{User, find_by_nick}
use ircat.Federation.Nick.{
  kill_message, equal_ts, ts_lost, announce_read, sender_from_prefix, Incoming, Clash, clash,
  resolve, announce, drop_existing, add_incoming, rename_found, nick_params, handle_remote_nick,
  read_incoming,
}
use ircat.Federation.Dispatch.{
  Clocks, wall, LinkCommand, handle_as, handle_svinfo, link_command, dispatch,
}

-- Sends and the other handlers do not activate.
module _ (l : Link) (h : is_active l.state ≡ false) where
  close_inactive : is_active (close l).state ≡ false
  unfolding close
  close_inactive = ground arith

  send_inactive : (m : Message) → is_active (send l m).state ≡ false
  unfolding send
  send_inactive m = ground (arith, close_inactive)

  handle_pass_inactive : (params : List Bytes) → is_active (handle_pass l params).state ≡ false
  unfolding handle_pass
  handle_pass_inactive [] = close_inactive
  handle_pass_inactive (p ∷ _) = ground (arith, close_inactive)

send_svinfo_inactive :
    (l : Link) (now : ℕ) → is_active l.state ≡ false → is_active (send_svinfo l now).state ≡ false
unfolding send_svinfo
send_svinfo_inactive l now h = send_inactive l h _

handle_server_inactive :
    (l : Link) (params : List Bytes) (now : ℕ)
    → is_active l.state ≡ false
    → is_active (handle_server l params now).state ≡ false
unfolding handle_server
handle_server_inactive l [] now h = close_inactive l h
handle_server_inactive l (peer ∷ _) now h =
    ground (arith, close_inactive l h, send_svinfo_inactive (record l { peer_name = peer }) now h)

module _ (n : Node) (h : is_active n.link.state ≡ false) where
  abbrev Inactive : Node → Type 0
  Inactive n' = is_active n'.link.state ≡ false

  drop_existing-link : (m : Node) (old : User) (r : Bytes) → (drop_existing m old r).link ≡ m.link
  unfolding drop_existing
  drop_existing-link m old r = refl

  announce-Inactive : (i : Incoming) (now : ℤ) → Inactive (announce n i now)
  unfolding announce resolve drop_existing add_incoming
  announce-Inactive i now = elim (Option-cases (find_by_nick n.site.world i.nick)) [
    | inl e ↦ rw (e, announce) h
    | inr (old, e) ↦ rw (e, announce) (by_clash (clash i.ts old.ts) old)
  ]
    where
      by_clash : (k : Clash) (old : User) → Inactive (resolve k n i old now)
      by_clash Clash.both_lose old =
          send_inactive n.link h (kill_message n.link.local_name i.nick equal_ts)
      by_clash Clash.incoming_loses old =
          send_inactive n.link h (kill_message n.link.local_name i.nick ts_lost)
      by_clash Clash.incoming_wins old = h

  rename-Inactive :
      (m : Message) (nick : Bytes) (o : Option User) → Inactive (rename_found n m nick o)
  rename-Inactive m nick none = h
  rename-Inactive m nick (some u) = ground arith

  read-Inactive : (o : Option Incoming) (now : ℤ) → Inactive (announce_read n now o)
  read-Inactive none now = h
  read-Inactive (some i) now = announce-Inactive i now

  nick-Inactive :
      (m : Message) (params : List Bytes) (now : ℤ) → Inactive (nick_params n m params now)
  unfolding nick_params
  nick-Inactive m [] now = h
  nick-Inactive m (p ∷ []) now =
      ground (arith, rename-Inactive m p (find_by_nick n.site.world (sender_from_prefix m.prefix)))
  nick-Inactive m (p ∷ q ∷ ps) now = read-Inactive (read_incoming (p ∷ q ∷ ps)) now

  svinfo_refused :
      (params : List Bytes) (time : ℤ)
      → svinfo_accepted params ≡ false
      → Inactive (handle_svinfo n params time)
  unfolding handle_svinfo
  svinfo_refused params time r = rw r (close_inactive n.link h)

-- what can activate a link
abbrev activates : LinkCommand → List Bytes → Bool
activates LinkCommand.svinfo params = svinfo_accepted params
activates _ params = false

handle_as_inactive :
    (k : LinkCommand) (n : Node) (m : Message) (t : Clocks)
    → is_active n.link.state ≡ false
    → activates k m.params ≡ false
    → is_active (handle_as k n m t).link.state ≡ false
unfolding handle_as handle_remote_nick
handle_as_inactive LinkCommand.pass n m t h a = handle_pass_inactive n.link h m.params
handle_as_inactive LinkCommand.server n m t h a = handle_server_inactive n.link m.params _ h
handle_as_inactive LinkCommand.svinfo n m t h a = svinfo_refused n h m.params (wall t) a
handle_as_inactive LinkCommand.nick n m t h a = nick-Inactive n h m m.params (wall t)
handle_as_inactive LinkCommand.ping n m t h a = send_inactive n.link h _
handle_as_inactive k n m t h a = h

activates_lem :
    (k : LinkCommand) (params : List Bytes)
    → activates k params ≡ true
    → (k ≡ LinkCommand.svinfo) × (svinfo_accepted params ≡ true)
activates_lem LinkCommand.svinfo params h = (refl, h)
activates_lem k params h = cc

-- A message that takes a link from a state that is not active to the active one is SVINFO with a
-- version of at least 3 and at least four parameters.
pub activated_by_svinfo :
    (n : Node) (m : Message) (t : Clocks)
    → is_active n.link.state ≡ false
    → is_active (dispatch n m t).link.state ≡ true
    → (link_command m.command ≡ LinkCommand.svinfo) × (svinfo_accepted m.params ≡ true)
unfolding dispatch
activated_by_svinfo n m t h a = elim (Bool-cases (activates (link_command m.command) m.params)) [
  | inl e ↦ activates_lem (link_command m.command) m.params e
  | inr e ↦ absurd (ground (arith, handle_as_inactive (link_command m.command) n m t h e))
]
