-- ===== src/StepExpr.antt =====
-- packages/workflow/src/expressions.ts: the expressions of `when`, and the `${{ … }}` of templates.
-- `Tokens` and `Parser` read the text of an expression, `Eval` evaluates over the context, and
-- `Template` finds the placeholders of a template and replaces them.
pub mod Tokens
pub mod Parser
pub mod Eval
pub mod Template
pub mod Names
pub mod Shell
pub mod Fuel
pub mod Scan
mod Examples
