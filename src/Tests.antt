-- ===== src/Tests.antt =====
-- The theorems at concrete inputs.
pub mod Worlds
pub mod Channels
pub mod Race
pub mod Names
pub mod Wire
pub mod Commands
pub mod Links
pub mod Peers
pub mod Registration
pub mod Messages
