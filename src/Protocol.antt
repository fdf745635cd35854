-- ===== src/Protocol.antt =====
-- internal/protocol: the frames and the messages of a session.
pub mod Frame
pub mod Message
mod Tests
