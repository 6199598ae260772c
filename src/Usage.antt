-- ===== src/Usage.antt =====
-- internal/controller/usagereport_controller.go: token counts of pods, their costs by model and by
-- namespace, and the break-even analysis.
pub mod Pods
pub mod Breakdown
pub mod BreakEven
pub mod Status
pub mod Period
pub mod Compute
pub mod Reconcile
