-- ===== src/History.antt =====
-- src/history.c: message history. Buf is one ring and Store the conversations; Ring and Store prove
-- what they hold.
pub mod Buf
pub mod Ring
pub mod Store
pub mod Keys
