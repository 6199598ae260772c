-- ===== src/Cli.antt =====
-- pkg/cli: the commands, with what they share.
pub mod Discovery
pub mod Text
pub mod Scan
pub mod Compare
pub mod Status
pub mod Budget
pub mod Export
