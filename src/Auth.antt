-- ===== src/Auth.antt =====
-- modules/auth/auth.service.ts: settings, tokens, and sessions with their rotation.
pub mod Settings
pub mod Tokens
pub mod Sessions
