-- ===== src/Budget.antt =====
-- packages/core/src/budget.ts: token usage, budgets and the tracker of one budget scope.
-- Costs are whole billionths of a dollar, and `warningRatio` is a fraction of two numbers.
mod Tracker
mod Monotone
mod Examples
pub use Tracker.*
pub use Monotone.*
