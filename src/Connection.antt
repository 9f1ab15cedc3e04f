-- ===== src/Connection.antt =====
-- src/connection.c and include/robotraconteurlite/connection.h: the state of a connection and the
-- protocol between the transport, which moves bytes, and the node, which moves messages.
pub mod Types
pub mod Events
pub mod Receive
pub mod Send
pub mod Lifecycle
pub mod Attach
pub mod Samples
