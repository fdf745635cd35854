-- ===== src/Transfer.antt =====
-- internal/transfer: the sender, the receiver, and what they keep on disk.
pub mod World
pub mod Frame
pub mod Extract
pub mod Archive
pub mod Resume
pub mod Steps
pub mod Calm
pub mod Send
pub mod Receive
pub mod Exchange
mod Tests
