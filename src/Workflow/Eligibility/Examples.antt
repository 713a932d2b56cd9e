-- ===== src/Workflow/Eligibility/Examples.antt =====
-- Two workflows and an item that only the second one takes.
use ai_orchestration.Prelude.{
  String, ◌≡◌, ◌↔◌, refl, true, some, none, List, [], ◌∷◌, ◌++◌, All, str_eq,
}
use ai_orchestration.Prelude.Names.{has}
use ai_orchestration.Workflow.{WorkflowDefinition, WorkItem}
use ai_orchestration.Workflow.Eligibility.{
  evaluate_eligibility, is_eligible, select_workflow, Qualifies, evaluate_eligibility-Qualifies_iff,
  select_workflow-Qualifies,
}

abbrev definition : String → String → WorkflowDefinition
definition name label = record {
  name = name;
  description = none;
  trigger = some (record { states = some ("ready" ∷ []); labels = none });
  eligibility = some (record {
    labels_include = some (label ∷ []);
    labels_exclude = some ("blocked" ∷ []);
    types = none;
    assignee = some "unassigned";
  });
  workspace = none;
  variables = none;
  steps = [];
  transitions = none;
  budget = none;
}

abbrev fix : WorkflowDefinition
fix = definition "fix" "bug"

abbrev docs : WorkflowDefinition
docs = definition "docs" "documentation"

abbrev item : WorkItem
item = record {
  id = "item-1";
  provider = "tracker";
  external_id = "1";
  title = "Explain it";
  state = "ready";
  type = none;
  priority = none;
  labels = "documentation" ∷ [];
  assignees = [];
  repository = none;
}

docs_selected : select_workflow item (fix ∷ docs ∷ []) ≡ some docs
unfolding select_workflow str_eq has
docs_selected = refl

evaluate_eligibility-Qualifies_iff_example :
    (is_eligible (evaluate_eligibility item docs) ≡ true) ↔ Qualifies item docs
evaluate_eligibility-Qualifies_iff_example = evaluate_eligibility-Qualifies_iff item docs

select_workflow-Qualifies_example :
    Qualifies item docs
    × (before : List WorkflowDefinition) × (after : List WorkflowDefinition) × (fix ∷ docs ∷ []
        ≡ before ++ docs ∷ after)
    × All (λ (b : WorkflowDefinition). ¬ Qualifies item b) before
select_workflow-Qualifies_example =
    select_workflow-Qualifies item (fix ∷ docs ∷ []) docs docs_selected
