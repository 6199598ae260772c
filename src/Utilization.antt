-- ===== src/Utilization.antt =====
-- internal/utilization: power samples and the hours that they make active.
pub mod Sample
pub mod Search
pub mod Retention
pub mod Record
pub mod Store
pub mod Durable
pub mod Summary
