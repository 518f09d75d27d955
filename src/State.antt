-- ===== src/State.antt =====
-- internal/state: the in-memory users, channels and histories.
pub mod Casemap
pub mod Glob
pub mod Membership
pub mod Channel
pub mod World
pub mod Whowas
