-- ===== src/Protocol.antt =====
-- internal/protocol: the wire format of one IRC line.
pub mod Message
pub mod Text
pub mod Tags
pub mod Parse
pub mod Encode
