-- ===== src/Lib.antt =====
-- Overture, a TypeScript orchestrator of coding agents: a scheduler picks work items, claims them,
-- and runs a workflow for each. A workflow is a graph of nodes, whose state is persisted between
-- ticks. This library models the parts that decide what happens.
--
-- - Prelude: Boolean tests, results that may be thrown errors, lists, sets of names, and
--   dictionaries as association lists.
-- - Engine: packages/workflow/src/graph-engine/engine.ts and packages/core/src/run-graph.ts.
--   `Engine.Tick.tick` is `GraphEngine.tick`, with its closures in `Engine.Settle` and
--   `Engine.Execute`. The clock, the abort signal and the executors are an `Environment` that acts
--   on a world of any type. `Engine.Changes` splits a tick into single changes of its state.
-- - ScopeExpr: packages/workflow/src/graph-engine/scope-expr.ts, the expressions of conditions,
--   guards and effects. The engine evaluates them in scopes of values (`Value`).
-- - Graph: packages/core/src/graph.ts, and `Graph.Validate` for packages/core/src/graph-validate.ts.
-- - StepEngine: packages/workflow/src/engine.ts, the engine of version 1 workflows. `Attempts` is
--   `runStep`, `State` and `Pass` are the variables and the loop of `execute`, and `Machine` is
--   `execute` as a step relation among the tasks that it has started; the other files prove what
--   every reachable state has.
-- - StepExpr: packages/workflow/src/expressions.ts, the expressions of `when` and the placeholders
--   of templates.
-- - Run: packages/core/src/run.ts, and `Run.Writers` for `transition` of
--   packages/orchestrator/src/run-coordinator.ts and `recover` of
--   packages/orchestrator/src/scheduler.ts.
-- - Claims: packages/persistence/src/claim-store.ts and the in-memory store of
--   packages/persistence/src/in-memory-persistence-provider.ts, as instances of one interface.
-- - Budget: packages/core/src/budget.ts.
-- - Policy: packages/policy/src/rule-engine.ts, rules with glob patterns, and the data of
--   packages/core/src/permissions.ts.
-- - Workflow.Eligibility: packages/orchestrator/src/eligibility.ts.
-- - Waits: packages/core/src/waits.ts, and the repositories of waits of
--   packages/persistence/src/wait-repository.ts and
--   packages/persistence/src/in-memory-persistence-provider.ts, as instances of one interface.
-- - Routing: `routeItem` of packages/orchestrator/src/scheduling/routing.ts.
-- - Workflow: the data of packages/core/src/workflow.ts and packages/core/src/work.ts that the other
--   parts use.
--
-- Times are numbers of milliseconds, counters are natural numbers, and texts are compared as the
-- program compares them. The searches of the validator and the parser run on fuel that grows with
-- their input; the main loop of a tick takes its fuel as an argument, one for each round. The limit of
-- settlements, and the satisfactions that a tick uses up, bound the rounds.
--
-- In a version 1 workflow the clock, the executors and the signal are the environment of a step, and
-- which of several settled tasks decides a race is left open. `JSON.stringify` is a parameter.
-- In the repositories of waits, `JSON.stringify`, `JSON.parse`, `toISOString` and `new Date` are
-- parameters: JSON data come back as a copy with new arrays and objects, and a time of a `Date`
-- comes back as it was. What they throw, at a time out of range, is left out.
-- The tokenizer and the parser of expressions run on fuel that grows with the text.
--
-- Not modelled: what talks to files, processes, networks and users, and the cache of parsed
-- expressions. A counter or a result under an id such as `constructor`, which a plain object
-- inherits, is taken to be absent at first.
pub mod Prelude
pub mod Budget
pub mod Run
pub mod Value
pub mod Workflow
pub mod Graph
pub mod ScopeExpr
pub mod StepExpr
pub mod StepEngine
pub mod Routing
pub mod Waits
pub mod Engine
pub mod Claims
pub mod Policy
