-- ===== src/Scraper.antt =====
-- internal/scraper: which inference runtime a pod runs, on which port it serves its metrics, and
-- how its metric samples become token counters and power readings.
pub mod Backend
pub mod Port
pub mod Metrics
pub mod Dispatch
pub mod Client
pub mod Power
