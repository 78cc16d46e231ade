-- ===== src/Wire.antt =====
-- The wire protocol of src/sharedstate.cc over the sockets of src/async_socket.cc.
pub mod Endian
pub mod Io
pub mod Socket
pub mod Message
pub mod Handshake
pub mod Preserving
