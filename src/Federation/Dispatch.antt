-- ===== src/Federation/Dispatch.antt =====
-- `dispatch` and `handleSvinfo` of internal/federation/federation.go: one message of the peer.
pub mod Handshake
pub mod Locals
use ircat.Base.{ℕ, ◌/◌, Bool, false, not, List, [], ◌∷◌, if◌then◌else◌, Bytes, codes, bytes_eq}
use ircat.Base.Int.{ℤ, pos}
use ircat.Protocol.Message.{Message}
use ircat.Server.Federation.{Site, deliver_local}
use ircat.Federation.Link.{
  LinkState, Link, Node, is_active, close, message, send, handle_pass, handle_server,
  svinfo_accepted, go_active,
}
use ircat.Federation.Burst.{send_burst}
use ircat.Federation.Nick.{handle_remote_nick}
use ircat.Federation.Remote.{
  handle_remote_service, handle_remote_quit, handle_remote_join, handle_remote_part,
  handle_remote_kick, handle_remote_topic, handle_remote_mode, handle_remote_kill,
  handle_remote_squit,
}

-- The clocks that the handlers read: the wall clock in nanoseconds, and the monotonic one.
pub record Clocks : Type 0 where
  pub time : ℕ
  pub mono : ℕ

abbrev pub wall : Clocks → ℤ
wall t = pos t.time

unfoldable pub handle_svinfo : Node → List Bytes → ℤ → Node
handle_svinfo n params time =
    let bursting = record n { link = record n.link { state = LinkState.bursting } } in
    let burst = send_burst bursting in
    if not (svinfo_accepted params)
    then record n { link = close n.link }
    else if is_active n.link.state
    then n
    else record burst { link = go_active burst.link time }

-- the cases of the `switch` on the command
pub data LinkCommand : Type 0 where
  pass server svinfo nick service quit text join part kick topic mode squit kill ping ignored :
      LinkCommand

abbrev link_commands : List (Bytes × LinkCommand)
link_commands =
    (codes "PASS", LinkCommand.pass)
    ∷ (codes "SERVER", LinkCommand.server)
    ∷ (codes "SVINFO", LinkCommand.svinfo)
    ∷ (codes "NICK", LinkCommand.nick)
    ∷ (codes "SERVICE", LinkCommand.service)
    ∷ (codes "QUIT", LinkCommand.quit)
    ∷ (codes "PRIVMSG", LinkCommand.text)
    ∷ (codes "NOTICE", LinkCommand.text)
    ∷ (codes "JOIN", LinkCommand.join)
    ∷ (codes "PART", LinkCommand.part)
    ∷ (codes "KICK", LinkCommand.kick)
    ∷ (codes "TOPIC", LinkCommand.topic)
    ∷ (codes "MODE", LinkCommand.mode)
    ∷ (codes "SQUIT", LinkCommand.squit)
    ∷ (codes "KILL", LinkCommand.kill)
    ∷ (codes "PING", LinkCommand.ping)
    ∷ []

pick_command : Bytes → List (Bytes × LinkCommand) → LinkCommand
pick_command c [] = LinkCommand.ignored
pick_command c ((name, k) ∷ l) = if bytes_eq c name then k else pick_command c l

unfoldable pub link_command : Bytes → LinkCommand
unfolding pick_command
link_command c = pick_command c link_commands

abbrev pub ping_token : Bytes → List Bytes → Bytes
ping_token me [] = me
ping_token me (token ∷ _) = token

abbrev pub on_site : Node → Site → Node
on_site n s = record n { site = s }

abbrev pub on_link : Node → Link → Node
on_link n l = record n { link = l }

unfoldable pub handle_as : LinkCommand → Node → Message → Clocks → Node
handle_as LinkCommand.pass n m t = on_link n (handle_pass n.link m.params)
handle_as LinkCommand.server n m t = on_link n (handle_server n.link m.params (t.time / 1000000000))
handle_as LinkCommand.svinfo n m t = handle_svinfo n m.params (wall t)
handle_as LinkCommand.nick n m t = handle_remote_nick n m (wall t)
handle_as LinkCommand.service n m t = on_site n (handle_remote_service n.link n.site m (wall t))
handle_as LinkCommand.quit n m t = on_site n (handle_remote_quit n.site m)
handle_as LinkCommand.text n m t = on_site n (deliver_local n.site m)
handle_as LinkCommand.join n m t = on_site n (handle_remote_join n.link n.site m (wall t))
handle_as LinkCommand.part n m t = on_site n (handle_remote_part n.site m)
handle_as LinkCommand.kick n m t = on_site n (handle_remote_kick n.site m)
handle_as LinkCommand.topic n m t = on_site n (handle_remote_topic n.site m (wall t))
handle_as LinkCommand.mode n m t = on_site n (handle_remote_mode n.site m (wall t))
handle_as LinkCommand.squit n m t = on_site n (handle_remote_squit n.site m t.mono (wall t))
handle_as LinkCommand.kill n m t = on_site n (handle_remote_kill n.site m)
handle_as LinkCommand.ping n m t =
    let me = n.link.local_name in
    on_link n (send n.link (message me (codes "PONG") (me ∷ ping_token me m.params ∷ [])))
handle_as LinkCommand.ignored n m t = n

unfoldable pub dispatch : Node → Message → Clocks → Node
dispatch n m t = handle_as (link_command m.command) n m t

-- the loop of `Run`: the link with its node, and whether it has returned
pub record Reader : Type 0 where
  pub node : Node
  pub returned : Bool

-- The case that `select` takes: the context is done, the channel `closed` is closed, the peer's
-- messages have ended, or one comes. Where several cases are ready Go takes any of them, so that
-- a run is a list of these.
pub data Turn : Type 0 where
  cancelled closing ended : Turn
  received : Message → Clocks → Turn

-- `closing` is not ready while the channel is open.
unfoldable pub take_turn : Node → Turn → Reader
take_turn n Turn.cancelled = record { node = on_link n (close n.link); returned = false }
take_turn n Turn.closing = record { node = n; returned = n.link.channel_closed }
take_turn n Turn.ended = record { node = on_link n (close n.link); returned = false }
take_turn n (Turn.received m t) = record { node = dispatch n m t; returned = false }

unfoldable pub run : Reader → List Turn → Reader
run r [] = r
run r (t ∷ rest) = let later = run (take_turn r.node t) rest in if r.returned then r else later
