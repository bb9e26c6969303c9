-- ===== src/Spam.antt =====
-- src/spam.c, src/spam.h: content filters, recipient and repeat limits.
pub mod Rules
pub mod Codes
pub mod Track
pub mod Actions
pub mod Check
