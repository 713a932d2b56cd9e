-- ===== src/Engine.antt =====
-- packages/workflow/src/graph-engine/engine.ts: the durable graph engine. A tick is a reducer over
-- the persisted state of a run (packages/core/src/run-graph.ts).
-- `State` holds the data, `Join`, `Settle`, `Execute` and `Tick` the code. `Changes` splits a tick
-- into the changes that it makes one after another, and the modules behind it prove what holds.
pub mod State
pub mod Join
pub mod Settle
pub mod Execute
pub mod Tick
pub mod Changes
pub mod Runs
pub mod Ticks
pub mod Outcome
pub mod Bounds
pub mod Joins
pub mod History
pub mod Terminals
pub mod Examples
pub mod Measure
pub mod Waiting
pub mod Batches
pub mod Termination
