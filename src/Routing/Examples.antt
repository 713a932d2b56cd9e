-- ===== src/Routing/Examples.antt =====
-- Rules on the labels of an item.
use ai_orchestration.Prelude.{◌≡◌, refl, String, none, some, List, [], ◌∷◌, str_eq}
use ai_orchestration.Prelude.Names.{has, add}
use ai_orchestration.Workflow.{WorkItem}
use ai_orchestration.Routing.{
  RoutingRule, ambiguous, unique, route_item, IsRouted, route_item-IsRouted,
}

abbrev item : WorkItem
item = record {
  id = "item-2";
  provider = "tracker";
  external_id = "2";
  title = "It breaks";
  state = "ready";
  type = some "bug";
  priority = none;
  labels = "urgent" ∷ [];
  assignees = [];
  repository = none;
}

abbrev rule : String → String → RoutingRule
rule condition workflow = record {
  name = workflow;
  condition = condition;
  workflow = workflow;
  auto_start = none;
}

abbrev rules : List RoutingRule
rules =
    rule "item.labels.urgent" "hotfix"
    ∷ rule "item.type == 'bug'" "fix"
    ∷ rule "item.type ==" "broken"
    ∷ []

abbrev all_enabled : List String
all_enabled = "hotfix" ∷ "fix" ∷ "broken" ∷ []

two_match : route_item item rules all_enabled ≡ ambiguous ("hotfix" ∷ "fix" ∷ [])
unfolding route_item str_eq has add
two_match = refl

one_enabled : route_item item rules ("fix" ∷ []) ≡ unique "fix" (rule "item.type == 'bug'" "fix")
unfolding route_item str_eq has add
one_enabled = refl

route_item-IsRouted_example : IsRouted item rules all_enabled (route_item item rules all_enabled)
route_item-IsRouted_example = route_item-IsRouted item rules all_enabled
