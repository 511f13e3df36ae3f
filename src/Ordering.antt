-- ===== src/Ordering.antt =====
-- The ordering agent (src/ordering).
pub mod Required
pub mod Mentioned
pub mod Reply
pub mod Tools
pub mod Batch
pub mod Usage
pub mod CartView
pub mod State
pub mod Graph
pub mod Service
