-- ===== src/Proto.antt =====
-- src/proto.c, the wire protocol.
pub mod Strings
pub mod Tags
pub mod Parse
pub mod Build
pub mod Glob
pub mod Utf8
pub mod Names
pub mod Duration
pub mod Mask
pub mod Address
pub mod Proxy
pub mod Relay
