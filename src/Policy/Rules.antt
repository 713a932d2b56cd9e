-- ===== src/Policy/Rules.antt =====
-- packages/policy/src/rule-engine.ts: `RuleBasedPolicyEngine`, and packages/core/src/permissions.ts.
use ai_orchestration.Prelude.{
  ℕ, String, ◌==◌, ◌≡◌, inl, inr, refl, ap, Bool, true, false, ◌&&◌, Option, none, some, List, [],
  ◌∷◌, ◌++◌, Bool-cases, if◌then◌else◌, All,
}
use ai_orchestration.Policy.Glob.{codes, pieces, test}

pub data PermissionCapability : Type 0 where
  filesystem_read filesystem_write process_execute network_connect git_read git_write issue_read
        issue_write secret_read browser_use computer_use container_use :
      PermissionCapability

pub data PolicyEffect : Type 0 where
  allow deny ask sandbox_only : PolicyEffect

pub record PermissionRequest : Type 0 where
  pub capability : PermissionCapability
  pub target : Option String

pub record PermissionRule : Type 0 where
  pub id : String
  pub capability : PermissionCapability
  pub target : Option String
  pub effect : PolicyEffect

-- A decision with the rule that produced it; its reason only puts that in words.
pub record PolicyDecision : Type 0 where
  pub effect : PolicyEffect
  pub rule_id : Option String

-- The place of a capability in the enumeration.
unfoldable pub place : PermissionCapability → ℕ
place filesystem_read = 0
place filesystem_write = 1
place process_execute = 2
place network_connect = 3
place git_read = 4
place git_write = 5
place issue_read = 6
place issue_write = 7
place secret_read = 8
place browser_use = 9
place computer_use = 10
place container_use = 11

abbrev or_empty : Option String → String
or_empty none = ""
or_empty (some s) = s

unfoldable pub target_fits : Option String → String → Bool
unfolding test pieces codes
target_fits none target = true
target_fits (some pattern) target = test (pieces (codes pattern)) (codes target)

-- The two `continue`s of `evaluate`, as one test.
unfoldable pub applies : PermissionRequest → PermissionRule → Bool
unfolding place target_fits
applies request rule =
    place rule.capability == place request.capability
    && target_fits rule.target (or_empty request.target)

unfoldable pub evaluate : PolicyEffect → List PermissionRule → PermissionRequest → PolicyDecision
unfolding applies
evaluate default_effect [] request = record { effect = default_effect; rule_id = none }
evaluate default_effect (rule ∷ rest) request =
    if applies request rule
    then record { effect = rule.effect; rule_id = some rule.id }
    else evaluate default_effect rest request

abbrev rule_for : String → PermissionCapability → PermissionRule
rule_for id capability = record { id = id; capability = capability; target = none; effect = allow }

-- `workspaceCodingRules`
unfoldable pub workspace_coding_rules : List PermissionRule
workspace_coding_rules =
    rule_for "fs-read" filesystem_read
    ∷ rule_for "fs-write" filesystem_write
    ∷ rule_for "exec" process_execute
    ∷ rule_for "git-read" git_read
    ∷ rule_for "git-write" git_write
    ∷ rule_for "issue-read" issue_read
    ∷ rule_for "issue-write" issue_write
    ∷ []

-- What a decision rests on: the first rule that applies, or the default if none does.
pub data Decided (default_effect : PolicyEffect) (rules : List PermissionRule)
    (request : PermissionRequest) : PolicyDecision → Type 0 where
  by_rule :
      (before after : List PermissionRule) (rule : PermissionRule)
      → rules ≡ before ++ rule ∷ after
      → All (λ (r : PermissionRule). applies request r ≡ false) before
      → applies request rule ≡ true
      → Decided default_effect rules request
          (record { effect = rule.effect; rule_id = some rule.id })
  by_default :
      All (λ (r : PermissionRule). applies request r ≡ false) rules
      → Decided default_effect rules request (record { effect = default_effect; rule_id = none })

Decided-later :
    (e : PolicyEffect) (rule : PermissionRule) (rules : List PermissionRule)
    (request : PermissionRequest) (d : PolicyDecision)
    → applies request rule ≡ false
    → Decided e rules request d
    → Decided e (rule ∷ rules) request d
Decided-later e rule rules request d skip (Decided.by_rule before after r split none_before fits) =
    Decided.by_rule (rule ∷ before) after r (ap (λ l. rule ∷ l) split) (skip, none_before) fits
Decided-later e rule rules request d skip (Decided.by_default none_fits) =
    Decided.by_default (skip, none_fits)

-- Every decision is that of the first rule that applies, or the default effect if no rule does.
pub evaluate-Decided :
    (e : PolicyEffect) (rules : List PermissionRule) (request : PermissionRequest)
    → Decided e rules request (evaluate e rules request)
unfolding evaluate
evaluate-Decided e [] request = Decided.by_default tt
evaluate-Decided e (rule ∷ rest) request = elim (Bool-cases (applies request rule)) [
  | inl fits ↦ rw fits (Decided.by_rule [] rest rule refl tt fits)
  | inr skip ↦ rw skip (Decided-later e rule rest request _ skip (evaluate-Decided e rest request))
]

-- The capabilities that the preset for coding grants.
unfoldable pub is_for_coding : PermissionCapability → Bool
is_for_coding network_connect = false
is_for_coding secret_read = false
is_for_coding browser_use = false
is_for_coding computer_use = false
is_for_coding container_use = false
is_for_coding _ = true

-- With the preset for coding and the default effect deny, a request is allowed exactly for the file
-- system, processes, git and issues, whatever its target; all else is denied.
pub coding_rules_allow :
    (request : PermissionRequest)
    → (evaluate deny workspace_coding_rules request).effect
      ≡ (if is_for_coding request.capability then allow else deny)
unfolding evaluate workspace_coding_rules is_for_coding applies place target_fits
coding_rules_allow request =
    elim request.capability
      as (λ c.
        (evaluate deny workspace_coding_rules (record request { capability = c })).effect
        ≡ (if is_for_coding c then allow else deny)) [ filesystem_read ↦ refl | _ ↦ refl ]
