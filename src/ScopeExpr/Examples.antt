-- ===== src/ScopeExpr/Examples.antt =====
-- Expressions of the shapes that workflows write, and one that reads an inherited member.
use ai_orchestration.Prelude.{◌≡◌, refl, true, false, ok, throw, str_eq, [], ◌∷◌, any}
use ai_orchestration.Value.{Value, object, field, end, string, boolean, heap, undefined}
use ai_orchestration.ScopeExpr.Lexer.{unterminated_string, unexpected_trailing}
use ai_orchestration.ScopeExpr.Eval.{evaluate_scope_expression, resolve_ref, is_barred}
use ai_orchestration.ScopeExpr.References.{resolve_ref-barred}

abbrev scope : Value
scope = object (heap 0) (
    field "node" (object (heap 1) (field "status" (string "succeeded") end))
      (field "vars" (object (heap 2) (field "dry_run" (boolean false) end)) end))

succeeded : evaluate_scope_expression "node.status == 'succeeded' && !vars.dry_run" scope ≡ ok true
unfolding evaluate_scope_expression str_eq
succeeded = refl

grouped : evaluate_scope_expression "!(vars.dry_run || 12.50 == 12.5)" scope ≡ ok false
unfolding evaluate_scope_expression str_eq
grouped = refl

unterminated : evaluate_scope_expression "vars.x == 'a" scope ≡ throw unterminated_string
unfolding evaluate_scope_expression str_eq
unterminated = refl

trailing : evaluate_scope_expression "true true" scope ≡ throw unexpected_trailing
unfolding evaluate_scope_expression str_eq
trailing = refl

-- `toString` is no variable, and is truthy all the same.
inherited_is_truthy : evaluate_scope_expression "vars.toString" scope ≡ ok true
unfolding evaluate_scope_expression str_eq
inherited_is_truthy = refl

has_barred : any is_barred ("vars" ∷ "constructor" ∷ "name" ∷ []) ≡ true
unfolding is_barred str_eq
has_barred = refl

resolve_ref-barred_example : resolve_ref ("vars" ∷ "constructor" ∷ "name" ∷ []) scope ≡ undefined
resolve_ref-barred_example =
    resolve_ref-barred ("vars" ∷ "constructor" ∷ "name" ∷ []) scope has_barred
