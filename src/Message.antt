-- ===== src/Message.antt =====
-- src/message.c: the messages in a vector of buffers.
pub mod Numbers
pub mod Steps
pub mod Strings
pub mod Header
pub mod Entry
pub mod Element
