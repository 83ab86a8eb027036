-- ===== src/Digest.antt =====
-- The package digest: what it takes from the mitum framework, and its parts.
pub mod Driver
pub mod Database
pub mod Session
pub mod Chunks
pub mod Digesting
pub mod Again
pub mod FollowUp
pub mod Problem
pub mod Offset
pub mod Search
pub mod Balance
pub mod Examples
mod Tests
