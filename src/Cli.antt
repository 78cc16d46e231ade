-- ===== src/Cli.antt =====
-- app/shared_state_cli.cc: what the command-line operations do to the storage.
pub mod Insert
pub mod BleachLoop
pub mod Commands
pub mod Peer
pub mod Registering
pub mod Dispatch
pub mod Accepting
pub mod Attempts
pub mod Daemon
