-- ===== src/Tests.antt =====
-- The theorems at concrete inputs.
pub mod Storage
mod Merging
mod Lifetime
pub mod Pipe
pub mod Peer
mod Channel
mod Synchronizing
mod Daemon
mod Round
pub mod Loop
mod Waiting
pub mod Documents
mod Serving
mod Visiting
mod Starting
