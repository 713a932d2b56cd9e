-- ===== src/Workflow/Eligibility.antt =====
-- packages/orchestrator/src/eligibility.ts: does a work item qualify for a workflow?
mod Examples
use ai_orchestration.Prelude.{
  String, ◌≡◌, ◌↔◌, ◌⊎◌, inl, inr, refl, sym, ap, subst, ◌∙◌, Bool, true, false, not, ◌&&◌, ◌||◌,
  Option, none, some, List, [], ◌∷◌, ◌++◌, arith, Bool-cases, if◌then◌else◌, any, all, find,
  is_none, All, str_eq,
}
use mathlib.Core.Option.{some-injective}
use ai_orchestration.Prelude.Names.{has}
use ai_orchestration.Workflow.{
  WorkflowDefinition, WorkflowTrigger, WorkflowEligibility, WorkItem, Assignee,
}

-- The reasons, without their wording.
pub data Reason : Type 0 where
  state_not_in_trigger no_trigger_label : Reason
  missing_label has_excluded_label : (label : String) → Reason
  type_not_eligible already_assigned : Reason

-- `EligibilityResult`: a reason is given exactly when the item is not eligible.
pub data EligibilityResult : Type 0 where
  eligible : EligibilityResult
  ineligible : Reason → EligibilityResult

-- A list that is there and not empty restricts; otherwise everything passes.
unfoldable pub passes_list : Option (List String) → (List String → Bool) → Bool
passes_list none test = true
passes_list (some []) test = true
passes_list (some (x ∷ xs)) test = test (x ∷ xs)

abbrev or_empty : Option (List String) → List String
or_empty none = []
or_empty (some xs) = xs

abbrev has_type : Option String → List String → Bool
has_type none types = false
has_type (some type) types = not (str_eq type "") && has type types

-- The label loops: the first label that is missing, and the first that is excluded.
unfoldable pub first_missing : List String → List String → Option String
first_missing required labels = find (λ label. not (has label labels)) required

unfoldable pub first_excluded : List String → List String → Option String
first_excluded excluded labels = find (λ label. has label labels) excluded

unfoldable pub trigger_states : Option WorkflowTrigger → Option (List String)
trigger_states none = none
trigger_states (some trigger) = trigger.states

unfoldable pub trigger_labels : Option WorkflowTrigger → Option (List String)
trigger_labels none = none
trigger_labels (some trigger) = trigger.labels

abbrev no_assignees : List Assignee → Bool
no_assignees [] = true
no_assignees (_ ∷ _) = false

abbrev wants_unassigned : Option String → Bool
wants_unassigned none = false
wants_unassigned (some a) = str_eq a "unassigned"

-- The part behind the trigger, for a definition that restricts eligibility.
unfoldable pub evaluate_conditions : WorkItem → WorkflowEligibility → EligibilityResult
unfolding first_missing first_excluded passes_list
evaluate_conditions item e = elim (first_missing (or_empty e.labels_include) item.labels) [
  | some label ↦ ineligible (missing_label label)
  | none ↦ elim (first_excluded (or_empty e.labels_exclude) item.labels) [
    | some label ↦ ineligible (has_excluded_label label)
    | none ↦
        if not (passes_list e.types (has_type item.type))
        then ineligible type_not_eligible
        else if wants_unassigned e.assignee && not (no_assignees item.assignees)
        then ineligible already_assigned
        else eligible
  ]
]

unfoldable pub evaluate_eligibility : WorkItem → WorkflowDefinition → EligibilityResult
unfolding passes_list trigger_states trigger_labels evaluate_conditions
evaluate_eligibility item definition =
    if not (passes_list (trigger_states definition.trigger) (has item.state))
    then ineligible state_not_in_trigger
    else if not
        (passes_list (trigger_labels definition.trigger) (any (λ label. has label item.labels)))
    then ineligible no_trigger_label
    else elim definition.eligibility [ none ↦ eligible | some e ↦ evaluate_conditions item e ]

unfoldable pub is_eligible : EligibilityResult → Bool
is_eligible eligible = true
is_eligible (ineligible _) = false

-- `selectWorkflow`
unfoldable pub select_workflow : WorkItem → List WorkflowDefinition → Option WorkflowDefinition
unfolding is_eligible evaluate_eligibility
select_workflow item definitions =
    find (λ (d : WorkflowDefinition). is_eligible (evaluate_eligibility item d)) definitions

-- The conditions of a definition, all at once and in no order.
pub record MeetsConditions (item : WorkItem) (e : WorkflowEligibility) : Type 0 where
  pub required : all (λ label. has label item.labels) (or_empty e.labels_include) ≡ true
  pub none_excluded : any (λ label. has label item.labels) (or_empty e.labels_exclude) ≡ false
  pub type_listed : passes_list e.types (has_type item.type) ≡ true
  pub free_if_asked : (wants_unassigned e.assignee && not (no_assignees item.assignees)) ≡ false

find-none_all :
    (p : String → Bool) (xs : List String) → is_none (find (λ x. not (p x)) xs) ≡ all p xs
find-none_all p [] = refl
find-none_all p (x ∷ xs) = ground (arith, find-none_all p xs)

find-none_any : (p : String → Bool) (xs : List String) → is_none (find p xs) ≡ not (any p xs)
find-none_any p [] = refl
find-none_any p (x ∷ xs) = ground (arith, find-none_any p xs)

-- The conditions behind the trigger: an item passes exactly if it has every required label and none
-- the excluded ones, its type is listed where types are, and it is unassigned where that is asked.
pub evaluate_conditions-MeetsConditions_iff :
    (item : WorkItem) (e : WorkflowEligibility)
    → (is_eligible (evaluate_conditions item e) ≡ true) ↔ MeetsConditions item e
unfolding evaluate_conditions is_eligible first_missing first_excluded
evaluate_conditions-MeetsConditions_iff item e =
    let missing = find-none_all (λ label. has label item.labels) (or_empty e.labels_include) in
    let excluded = find-none_any (λ label. has label item.labels) (or_empty e.labels_exclude) in
    (
      λ h. record {
        required = ground arith;
        none_excluded = ground arith;
        type_listed = ground arith;
        free_if_asked = ground arith;
      },
      λ (m : MeetsConditions item e).
          let a = m.required in
          let b = m.none_excluded in
          let c = m.type_listed in let d = m.free_if_asked in ground arith,
    )

-- What the trigger and the eligibility of a definition ask of an item.
pub record Qualifies (item : WorkItem) (d : WorkflowDefinition) : Type 0 where
  pub state_listed : passes_list (trigger_states d.trigger) (has item.state) ≡ true
  pub label_listed :
      passes_list (trigger_labels d.trigger) (any (λ label. has label item.labels)) ≡ true
  pub conditions : (e : WorkflowEligibility) → d.eligibility ≡ some e → MeetsConditions item e

conditions_of :
    (item : WorkItem) (o : Option WorkflowEligibility)
    → (is_eligible (elim o [ none ↦ eligible | some e ↦ evaluate_conditions item e ]) ≡ true)
      ↔ ((e : WorkflowEligibility) → o ≡ some e → MeetsConditions item e)
unfolding is_eligible
conditions_of item none = (λ h e there. absurd (none_some there), λ h. refl)
  where
    none_some : {e : WorkflowEligibility} → none ≡ some e → ⊥
    none_some x = cc
conditions_of item (some e) = (
  λ h e' there.
      subst (MeetsConditions item) (some-injective e e' there)
        ((evaluate_conditions-MeetsConditions_iff item e).0 h),
  λ h. (evaluate_conditions-MeetsConditions_iff item e).1 (h e refl),
)

-- An item is eligible for a definition exactly if its state and one of its labels are listed where
-- the trigger lists any, and the definition's eligibility, if it has one, is met: every required
-- label, no excluded one, a listed type where types are listed, no assignee where that is asked.
pub evaluate_eligibility-Qualifies_iff :
    (item : WorkItem) (d : WorkflowDefinition)
    → (is_eligible (evaluate_eligibility item d) ≡ true) ↔ Qualifies item d
unfolding evaluate_eligibility is_eligible
evaluate_eligibility-Qualifies_iff item d =
    let rest = conditions_of item d.eligibility in
    (
      λ h. record {
        state_listed = ground arith;
        label_listed = ground arith;
        conditions = rest.0 (ground arith);
      },
      λ (q : Qualifies item d).
          let a = q.state_listed in
          let b = q.label_listed in let c = rest.1 q.conditions in ground arith,
    )

-- The workflow that is selected is the first one for which the item qualifies: it is in the list,
-- the item qualifies for it, and for none of those before it.
pub select_workflow-Qualifies :
    (item : WorkItem) (ds : List WorkflowDefinition) (d : WorkflowDefinition)
    → select_workflow item ds ≡ some d
    → Qualifies item d
      × (before : List WorkflowDefinition) × (after : List WorkflowDefinition) × (ds
          ≡ before ++ d ∷ after)
      × All (λ (b : WorkflowDefinition). ¬ Qualifies item b) before
unfolding select_workflow
select_workflow-Qualifies item [] d h = cc
select_workflow-Qualifies item (x ∷ xs) d h =
    elim (Bool-cases (is_eligible (evaluate_eligibility item x))) [
      | inl takes ↦
          let e = some-injective x d (rw (takes, select_workflow) at h) in
          (
            subst (Qualifies item) e ((evaluate_eligibility-Qualifies_iff item x).0 takes),
            [],
            xs,
            ap (λ k. k ∷ xs) e,
            tt,
          )
      | inr leaves ↦
          let (q, before, after, split, none_before) =
            select_workflow-Qualifies item xs d (rw (leaves, select_workflow) at h) in
          (
            q,
            x ∷ before,
            after,
            ap (λ l. x ∷ l) split,
            ((λ qx. clash leaves ((evaluate_eligibility-Qualifies_iff item x).1 qx)), none_before),
          )
    ]
  where
    clash : {b : Bool} → b ≡ false → b ≡ true → ⊥
    clash e f = cc
