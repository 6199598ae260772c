-- ===== src/Utilization/Store.antt =====
-- internal/utilization/store.go, and the parts of internal/utilization/sampler.go that call it.
pub mod Codec
pub mod Bolt
pub mod Operations
