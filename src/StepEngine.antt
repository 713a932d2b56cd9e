-- ===== src/StepEngine.antt =====
-- packages/workflow/src/engine.ts: the engine of version 1 workflows, a graph of steps that depend
-- on one another. `Interpolate` and `Attempts` run one step, `State` is the engine's loop as functions
-- on its variables, and `Machine` is the engine among the tasks that it has started.
pub mod Interpolate
pub mod Attempts
pub mod State
pub mod Pass
pub mod Machine
pub mod Ids
pub mod Launching
pub mod Kept
pub mod Initial
pub mod Exclusive
pub mod Stable
pub mod Order
pub mod Bounds
pub mod Accounted
pub mod Retries
pub mod Endings
pub mod Returned
pub mod Status
pub mod Sublists
pub mod Measure
pub mod Termination
pub mod Live
mod Examples
