-- ===== src/Budget.antt =====
-- internal/controller/tokenbudget_controller.go and pkg/cli/budget.go: a budget's conditions, as the
-- controller writes them and the command line reads them, and its entry in the API store.
pub mod Condition
pub mod Evaluate
pub mod Report
pub mod Entry
pub mod Rules
