-- ===== src/Channel.antt =====
-- src/channel.c, src/channel.h: what a channel keeps.
pub mod Masklist
pub mod Invites
pub mod Bans
pub mod Members
pub mod Cache
