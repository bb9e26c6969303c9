-- ===== src/Tests.antt =====
-- The theorems at concrete inputs, one module for each part.
pub mod Wire
pub mod Messages
pub mod Names
pub mod Channels
pub mod Bans
pub mod Cached
pub mod Guards
pub mod Spam
pub mod Clients
