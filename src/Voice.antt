-- ===== src/Voice.antt =====
-- The voice module (src/voice): sessions of speech recognition on a client's socket.
pub mod Session
pub mod Handler
