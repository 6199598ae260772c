-- ===== src/Profile.antt =====
-- internal/controller/costprofile_controller.go: what a cost profile costs by the hour, and the token
-- rates of the pods on its hardware.
pub mod Resource
pub mod Power
pub mod Pods
pub mod Reconcile
