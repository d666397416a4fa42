-- ===== src/State.antt =====
-- state/: the accounts of the program.
pub mod RateLimiter
pub mod OftStore
pub mod PeerConfig
