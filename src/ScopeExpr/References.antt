-- ===== src/ScopeExpr/References.antt =====
-- packages/workflow/src/graph-engine/scope-expr.ts: what `resolveRef` never reads.
use ai_orchestration.Prelude.{String, ◌≡◌, true, List, [], ◌∷◌, arith, any}
use ai_orchestration.Value.{Value, undefined}
use ai_orchestration.ScopeExpr.Eval.{is_barred, resolve_ref, member}

-- A reference with a barred segment at any place is undefined, whatever the scope.
pub resolve_ref-barred :
    (path : List String) (scope : Value)
    → any is_barred path ≡ true
    → resolve_ref path scope ≡ undefined
unfolding resolve_ref
resolve_ref-barred [] scope h = cc
resolve_ref-barred (segment ∷ path) scope h =
    ground (arith, resolve_ref-barred path (member segment scope))
