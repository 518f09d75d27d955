-- ===== src/Server.antt =====
-- Handlers of internal/server that are functions of the world they read and write.
pub mod Atoi
pub mod Modes
pub mod UserModes
pub mod Persistence
pub mod Channels
pub mod Federation
pub mod Registration
pub mod Messages
pub mod Quit
