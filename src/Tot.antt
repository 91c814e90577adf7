-- ===== src/Tot.antt =====
-- tot/src: the tunnel in front of a validator.
pub mod Maildir
pub mod Route
pub mod RateLimiter
pub mod Stream
pub mod Utf8
pub mod Stamp
pub mod Intake
pub mod Session
