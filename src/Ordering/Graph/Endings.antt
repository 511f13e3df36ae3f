-- ===== src/Ordering/Graph/Endings.antt =====
-- How a whole turn ends (build-graph.ts).
use voice_order_backend.Ordering.Batch.{Batch}
