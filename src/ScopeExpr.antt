-- ===== src/ScopeExpr.antt =====
-- packages/workflow/src/graph-engine/scope-expr.ts: the expressions of transitions, guards and
-- lifecycle effects. `Lexer` and `Parser` read the text, `Eval` evaluates over a scope.
-- A text is its characters; the positions in the error messages are left out, and so is the cache
-- of parsed expressions, which returns what parsing again would return.
pub mod Lexer
pub mod Parser
pub mod Eval
pub mod References
mod Examples
