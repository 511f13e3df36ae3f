-- ===== src/Tts.antt =====
-- Spoken replies (src/tts).
pub mod Segments
pub mod Service
