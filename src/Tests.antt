-- ===== src/Tests.antt =====
-- Tests and examples: each theorem that has conditions or arguments, at concrete values.
pub mod Data
pub mod Scraping
pub mod Usage
pub mod Budgets
pub mod Durable
pub mod Costs
pub mod Export
pub mod Status
pub mod Profile
pub mod Reports
pub mod Commands
pub mod Gauges
pub mod Startup
