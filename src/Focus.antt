-- ===== src/Focus.antt =====
-- internal/focus: the FOCUS-compatible CSV of usage reports.
pub mod Row
pub mod Best
pub mod Export
