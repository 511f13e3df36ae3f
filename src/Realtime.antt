-- ===== src/Realtime.antt =====
-- The client sockets (src/realtime).
pub mod Registry
