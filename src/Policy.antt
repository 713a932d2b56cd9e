-- ===== src/Policy.antt =====
-- packages/policy/src/rule-engine.ts, and the data of packages/core/src/permissions.ts: rules are
-- tried in order and the first that applies decides.
-- `Glob` is `globToRegExp` with the matching of the expressions that it builds, `Rules` the engine.
pub mod Glob
pub mod Rules
mod Examples
