-- ===== src/Federation/Dispatch/Handshake.antt =====
-- How a link comes to be active.
pub mod Activation
use ircat.Base.{
  ℕ, ◌/◌, ◌≡◌, refl, ◌∙◌, inl, inr, Bool, true, false, ◌||◌, List, [], ◌∷◌, arith, Bool-cases,
  Bytes, codes, bytes_eq,
}
use ircat.Base.Int.{ℤ}
use ircat.Protocol.Message.{Message}
use ircat.State.World.{is_empty}
use ircat.Federation.Link.{
  LinkState, Link, Node, is_active, close, message, send, handle_server, svinfo_accepted, go_active,
  send_svinfo,
}
use ircat.Base.GoMap.{GoMap}
use ircat.State.Channel.{Channel}
use ircat.Federation.Burst.{
  send_burst, send_each, burst_channels, burst_channel, channel_lines, user_lines,
}
use ircat.Federation.Dispatch.{
  Clocks, wall, handle_as, handle_svinfo, link_command, dispatch, Turn, take_turn, run,
}

-- a SERVER line with the name that the link expects, or any where it expects none
abbrev pub expected_name : Link → Bytes → Bool
expected_name l peer = is_empty l.cfg.peer_name || bytes_eq peer l.cfg.peer_name

svinfo_active :
    (n : Node) (params : List Bytes) (time : ℤ)
    → svinfo_accepted params ≡ true
    → is_active (handle_svinfo n params time).link.state ≡ true
unfolding handle_svinfo go_active
svinfo_active n params time h = ground arith

-- Sends keep the name of the peer.
send-peer_name : (l : Link) (m : Message) → (send l m).peer_name ≡ l.peer_name
unfolding send close
send-peer_name l m = ground arith

send_each-peer_name : (ms : List Message) (l : Link) → (send_each l ms).peer_name ≡ l.peer_name
unfolding send_each
send_each-peer_name [] l = refl
send_each-peer_name (m ∷ ms) l = send_each-peer_name ms (send l m) ∙ send-peer_name l m

burst_channel-peer_name :
    (n : Node) (ch : Channel) → (burst_channel n ch).link.peer_name ≡ n.link.peer_name
unfolding burst_channel
burst_channel-peer_name n ch =
    ground (arith, send_each-peer_name (channel_lines n.link.local_name n.site.world ch) n.link)

burst_channels-peer_name :
    (chs : GoMap Bytes Channel) (n : Node)
    → (burst_channels n chs).link.peer_name ≡ n.link.peer_name
unfolding burst_channels
burst_channels-peer_name [] n = refl
burst_channels-peer_name ((k, ch) ∷ chs) n =
    burst_channels-peer_name chs (burst_channel n ch) ∙ burst_channel-peer_name n ch

send_burst-peer_name : (n : Node) → (send_burst n).link.peer_name ≡ n.link.peer_name
unfolding send_burst
send_burst-peer_name n =
    let users = user_lines n.link.local_name n.site.world.by_id in
    burst_channels-peer_name n.site.world.by_channel (record n { link = send_each n.link users })
    ∙ send_each-peer_name users n.link

svinfo-peer_name :
    (n : Node) (params : List Bytes) (time : ℤ)
    → svinfo_accepted params ≡ true
    → (handle_svinfo n params time).link.peer_name ≡ n.link.peer_name
unfolding handle_svinfo go_active
svinfo-peer_name n params time h =
    ground (
      arith,
      send_burst-peer_name (record n { link = record n.link { state = LinkState.bursting } }),
    )

server-peer_name :
    (l : Link) (peer : Bytes) (rest : List Bytes) (now : ℕ)
    → expected_name l peer ≡ true
    → (handle_server l (peer ∷ rest) now).peer_name ≡ peer
unfolding handle_server send_svinfo
server-peer_name l peer rest now h = elim (Bool-cases (is_empty l.cfg.peer_name)) [
  | inl e ↦ rw e (send-peer_name _ _)
  | inr e ↦
      let same : bytes_eq peer l.cfg.peer_name ≡ true = ground arith in
      rw (e, same) (send-peer_name _ _)
]

-- the two lines of the peer
abbrev pub server_line : Bytes → Bytes → List Bytes → Message
server_line me peer rest = message me (codes "SERVER") (peer ∷ rest)

abbrev pub svinfo_line : Bytes → List Bytes → Message
svinfo_line me params = message me (codes "SVINFO") params

-- Run has not returned, and its next two turns read SERVER with an expected name, or any name
-- where none is configured, and then an accepted SVINFO: the link is then active under that name
-- and Run goes on, whatever state the link was in before. No PASS is needed.
pub active_without_pass :
    (n : Node) (me you peer : Bytes) (rest params : List Bytes) (t u : Clocks)
    → expected_name n.link peer ≡ true
    → svinfo_accepted params ≡ true
    → let r =
        run
          (record { node = n; returned = false })
          (Turn.received (server_line me peer rest) t
            ∷ Turn.received (svinfo_line you params) u
            ∷ []) in
      (is_active r.node.link.state ≡ true) × (r.node.link.peer_name ≡ peer) × (r.returned ≡ false)
unfolding run take_turn dispatch handle_as link_command bytes_eq
active_without_pass n me you peer rest params t u named h =
    let l = handle_server n.link (peer ∷ rest) (t.time / 1000000000) in
    (
      svinfo_active (record n { link = l }) params (wall u) h,
      svinfo-peer_name (record n { link = l }) params (wall u) h
          ∙ server-peer_name n.link peer rest (t.time / 1000000000) named,
      refl,
    )
