-- ===== src/Calculator.antt =====
-- internal/calculator and `BuildComparisons` of internal/api: what hardware, tokens and cloud models
-- cost.
pub mod Cost
pub mod Cloud
pub mod Catalog
