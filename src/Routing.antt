-- ===== src/Routing.antt =====
-- packages/orchestrator/src/scheduling/routing.ts: `routingScope` and `routeItem`. The suggestion of
-- rules is left out.
mod Examples
use mathlib.Core.List.Memᴰ
use mathlib.Core.List.{Memᴰ}
use ai_orchestration.Prelude.{
  ℕ, zero, suc, ◌≤◌, String, Bool, true, false, ◌&&◌, ◌||◌, not, ◌≡◌, ◌↔◌, refl, sym, subst, ap,
  ◌∙◌, Option, none, some, List, [], ◌∷◌, map, filter, mem-filter, filter-mem, length, str_eq,
  str_eq_iff, str_eq_refl, if◌then◌else◌, Thrown, ok, throw, Bool-cases, inl, inr, arith,
}
use ai_orchestration.Prelude.Names.{has, add, has-add, Distinct, Distinct-add}
use ai_orchestration.Value.{Value, Fields, field, end, object, built, string, boolean}
use ai_orchestration.Workflow.{WorkItem}
use ai_orchestration.ScopeExpr.Lexer.{ScopeError}
use ai_orchestration.ScopeExpr.Eval.{evaluate_scope_expression}

pub record RoutingRule : Type 0 where
  pub name : String
  pub condition : String
  pub workflow : String
  pub auto_start : Option Bool

pub data RoutingOutcome : Type 0 where
  no_match : RoutingOutcome
  unique : (workflow : String) (rule : RoutingRule) → RoutingOutcome
  ambiguous : (workflows : List String) → RoutingOutcome

-- `labels[label] = true`: a Boolean is no prototype, so that name sets nothing.
set_label : String → Fields → Fields
set_label label end = if str_eq label "__proto__" then end else field label (boolean true) end
set_label label (field k v rest) =
    if str_eq k label then field k (boolean true) rest else field k v (set_label label rest)

label_fields : List String → Fields → Fields
unfolding set_label
label_fields [] fields = fields
label_fields (label ∷ labels) fields = label_fields labels (set_label label fields)

abbrev optional_field : String → Option String → Fields → Fields
optional_field k none rest = rest
optional_field k (some s) rest = field k (string s) rest

-- The members that are there only when the item has them.
optional_fields : WorkItem → Fields
optional_fields item = optional_field "type" item.type (
    optional_field "priority" item.priority (
      optional_field "repository" (elim item.repository [ none ↦ none | some r ↦ some r.locator ])
        end))

item_fields : WorkItem → Fields
unfolding label_fields optional_fields
item_fields item =
    let labels = object (built ("item" ∷ "labels" ∷ [])) (label_fields item.labels end) in
    field "provider" (string item.provider) (
      field "externalId" (string item.external_id) (
        field "title" (string item.title)
          (field "state" (string item.state) (field "labels" labels (optional_fields item)))))

unfoldable pub routing_scope : WorkItem → Value
unfolding item_fields
routing_scope item =
    object (built []) (field "item" (object (built ("item" ∷ [])) (item_fields item)) end)

abbrev returned_true : Thrown ScopeError Bool → Bool
returned_true (ok b) = b
returned_true (throw e) = false

-- Whether the loop takes the rule: its workflow is enabled, and its condition holds. One that throws
-- does not hold.
unfoldable pub matches : WorkItem → List String → RoutingRule → Bool
unfolding routing_scope evaluate_scope_expression has
matches item enabled rule =
    has rule.workflow enabled
    && returned_true (evaluate_scope_expression rule.condition (routing_scope item))

-- `new Set(matches.map((rule) => rule.workflow))`
unfoldable pub workflows_of : List String → List RoutingRule → List String
unfolding add
workflows_of seen [] = seen
workflows_of seen (r ∷ rs) = workflows_of (add r.workflow seen) rs

unfoldable pub outcome_of : List RoutingRule → List String → RoutingOutcome
outcome_of [] workflows = no_match
outcome_of (first ∷ rest) [] = no_match
outcome_of (first ∷ rest) (w ∷ []) = unique first.workflow first
outcome_of (first ∷ rest) (w ∷ v ∷ more) = ambiguous (w ∷ v ∷ more)

unfoldable pub route_item : WorkItem → List RoutingRule → List String → RoutingOutcome
unfolding matches workflows_of outcome_of
route_item item rules enabled =
    let found = filter (matches item enabled) rules in outcome_of found (workflows_of [] found)

-- The workflows of the rules, behind those seen.
has-workflows_of :
    (w : String) (seen : List String) (rs : List RoutingRule)
    → has w (workflows_of seen rs)
      ≡ (has w seen || has w (map (λ (r : RoutingRule). r.workflow) rs))
unfolding workflows_of has
has-workflows_of w seen [] = ground arith
has-workflows_of w seen (r ∷ rs) =
    ground (arith, has-workflows_of w (add r.workflow seen) rs, has-add r.workflow w seen)

Distinct-workflows_of :
    (seen : List String) (rs : List RoutingRule) → Distinct seen → Distinct (workflows_of seen rs)
unfolding workflows_of
Distinct-workflows_of seen [] d = d
Distinct-workflows_of seen (r ∷ rs) d =
    Distinct-workflows_of (add r.workflow seen) rs (Distinct-add r.workflow seen d)

module _ (item : WorkItem) (rules : List RoutingRule) (enabled : List String) where
  -- A rule of the list that the item matches.
  abbrev pub Found : RoutingRule → Type 0
  Found r = Memᴰ r rules × (matches item enabled r ≡ true)

  -- What an outcome says.
  abbrev pub IsRouted : RoutingOutcome → Type 0
  IsRouted no_match = (r : RoutingRule) → Memᴰ r rules → matches item enabled r ≡ false
  IsRouted (unique w rule) =
      Found rule × (rule.workflow ≡ w) × ((r : RoutingRule) → Found r → r.workflow ≡ w)
  IsRouted (ambiguous ws) =
      (2 ≤ length ws)
      × Distinct ws
      × ((w : String) → (has w ws ≡ true) ↔ ((r : RoutingRule) × Found r × (r.workflow ≡ w)))

  -- A workflow of a list is that of one of its rules.
  has-rule :
      (w : String) (rs : List RoutingRule)
      → has w (map (λ (r : RoutingRule). r.workflow) rs) ≡ true
      → (r : RoutingRule) × Memᴰ r rs × (r.workflow ≡ w)
  unfolding has
  has-rule w [] h = cc
  has-rule w (r ∷ rs) h = elim (Bool-cases (str_eq r.workflow w)) [
    | inl e ↦ (r, Memᴰ.head refl, (str_eq_iff r.workflow w).0 e)
    | inr e ↦ let (q, m, f) = has-rule w rs (ground (arith, h, e)) in (q, Memᴰ.tail m, f)
  ]

  rule-has :
      (r : RoutingRule) (rs : List RoutingRule)
      → Memᴰ r rs
      → has r.workflow (map (λ (q : RoutingRule). q.workflow) rs) ≡ true
  unfolding has
  rule-has r [] m = absurd (Memᴰ.not-nil m)
  rule-has r (q ∷ rs) (Memᴰ.head e) = rw (← e, str_eq_refl r.workflow) refl
  rule-has r (q ∷ rs) (Memᴰ.tail m) = ground (arith, rule-has r rs m)

  outcome_of-IsRouted :
      (found : List RoutingRule) (workflows : List String)
      → ((r : RoutingRule) → Memᴰ r found → Found r)
      → ((r : RoutingRule) → Found r → Memᴰ r found)
      → ((w : String) → has w workflows ≡ has w (map (λ (r : RoutingRule). r.workflow) found))
      → Distinct workflows
      → IsRouted (outcome_of found workflows)
  unfolding outcome_of has
  outcome_of-IsRouted [] workflows sound complete same distinct = λ r m. none_found r m
    where
      none_found : (r : RoutingRule) → Memᴰ r rules → matches item enabled r ≡ false
      none_found r m = elim (Bool-cases (matches item enabled r)) [
        | inl e ↦ absurd (Memᴰ.not-nil (complete r (m, e)))
        | inr e ↦ e
      ]
  outcome_of-IsRouted (first ∷ rest) [] sound complete same distinct =
      absurd (clash (same first.workflow ∙ rule-has first (first ∷ rest) (Memᴰ.head refl)))
    where
      clash : false ≡ true → ⊥
      clash e = cc
  outcome_of-IsRouted (first ∷ rest) (w ∷ []) sound complete same distinct = (
    sound first (Memᴰ.head refl),
    refl,
    λ r f. only r f ∙ sym (only first (sound first (Memᴰ.head refl))),
  )
    where
      only : (r : RoutingRule) → Found r → r.workflow ≡ w
      only r f =
          let there = same r.workflow ∙ rule-has r (first ∷ rest) (complete r f) in
          sym ((str_eq_iff w r.workflow).0 (ground (arith, there)))
  outcome_of-IsRouted (first ∷ rest) (w ∷ v ∷ more) sound complete same distinct =
      (omega arith, distinct, λ u. (onto u, back u))
    where
      onto :
          (u : String)
          → has u (w ∷ v ∷ more) ≡ true
          → (r : RoutingRule) × Found r × (r.workflow ≡ u)
      onto u h = let (r, m, e) = has-rule u (first ∷ rest) (sym (same u) ∙ h) in (r, sound r m, e)

      back :
          (u : String)
          → (r : RoutingRule) × Found r × (r.workflow ≡ u)
          → has u (w ∷ v ∷ more) ≡ true
      back u (r, f, e) =
          subst (λ z. has z (w ∷ v ∷ more) ≡ true) e
            (same r.workflow ∙ rule-has r (first ∷ rest) (complete r f))

  -- No rule matches exactly when the outcome says so; a unique workflow is that of a matching rule
  -- and of every other; and an ambiguous outcome lists two distinct workflows or more, which are
  -- just those of the matching rules.
  pub route_item-IsRouted : IsRouted (route_item item rules enabled)
  unfolding route_item has
  route_item-IsRouted =
      let found = filter (matches item enabled) rules in
      outcome_of-IsRouted found (workflows_of [] found)
        (λ r m. mem-filter (matches item enabled) rules m)
        (λ r f. filter-mem (matches item enabled) rules f.0 f.1) (λ w. has-workflows_of w [] found)
        (Distinct-workflows_of [] found tt)
