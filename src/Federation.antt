-- ===== src/Federation.antt =====
-- internal/federation: the protocol between two servers. A link handles the messages of one peer
-- on the world of this node; `Server.Federation` is the host that it calls.
pub mod Link
pub mod Modes
pub mod Nick
pub mod Remote
pub mod Burst
pub mod Dispatch
