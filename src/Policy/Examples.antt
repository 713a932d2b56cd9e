-- ===== src/Policy/Examples.antt =====
-- Rules with glob patterns, and requests that they decide.
use ai_orchestration.Prelude.{◌≡◌, ◌↔◌, refl, true, false, some, List, [], ◌∷◌}
use ai_orchestration.Policy.Glob.{Denotes, codes, pieces, test, test-Denotes_iff}
use ai_orchestration.Policy.Rules.{
  PermissionRule, PermissionRequest, filesystem_write, allow, deny, ask, evaluate, Decided,
  workspace_coding_rules, evaluate-Decided, coding_rules_allow, is_for_coding,
}

within_segment : test (pieces (codes "src/*.ts")) (codes "src/a/b.ts") ≡ false
unfolding test pieces codes
within_segment = refl

across_segments : test (pieces (codes "src/**.ts")) (codes "src/a/b.ts") ≡ true
unfolding test pieces codes
across_segments = refl

abbrev rules : List PermissionRule
rules =
    record { id = "no-env"; capability = filesystem_write; target = some "**.env"; effect = deny }
    ∷ record { id = "src"; capability = filesystem_write; target = some "src/**"; effect = allow }
    ∷ []

abbrev write_source : PermissionRequest
write_source = record { capability = filesystem_write; target = some "src/main.ts" }

decided_by_src : (evaluate deny rules write_source).rule_id ≡ some "src"
unfolding evaluate
decided_by_src = refl

-- `**` stops at the end of a line.
within_line : test (pieces (codes "**.env")) (codes "a\nb.env") ≡ false
unfolding test pieces codes
within_line = refl

test-Denotes_iff_example :
    (test (pieces (codes "src/*.ts")) (codes "src/a.ts") ≡ true)
    ↔ Denotes (codes "src/*.ts") (codes "src/a.ts")
test-Denotes_iff_example = test-Denotes_iff (codes "src/*.ts") (codes "src/a.ts")

evaluate-Decided_example : Decided ask rules write_source (evaluate ask rules write_source)
evaluate-Decided_example = evaluate-Decided ask rules write_source

coding_rules_allow_example : (evaluate deny workspace_coding_rules write_source).effect ≡ allow
unfolding is_for_coding
coding_rules_allow_example = coding_rules_allow write_source
