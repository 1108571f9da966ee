-- ===== src/Auth.antt =====
-- server/auth: the parts that keep accounts safe.
pub mod TimingSafe
pub mod RateLimit
pub mod Sessions
pub mod ResetTokens
pub mod Passwords
pub mod FileSigning
