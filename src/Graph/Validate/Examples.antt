-- ===== src/Graph/Validate/Examples.antt =====
-- What the validator says of the sample workflow.
use ai_orchestration.Prelude.{◌≡◌, refl, ◌↔◌, true, [], str_eq}
use ai_orchestration.Prelude.Names.{has, add}
use ai_orchestration.Graph.Samples.{review_loop}
use ai_orchestration.Graph.Validate.{validate_graph, reachable, reaches_back}
use ai_orchestration.Graph.Validate.Reach.{reachable_iff, reaches_back_iff}
use ai_orchestration.Graph.Validate.Chains.{Reaches}
use ai_orchestration.Graph.Validate.Spec.{IsValid}
use ai_orchestration.Graph.Validate.Sound.{validate_graph-IsValid}

review_loop_clean : validate_graph review_loop ≡ []
unfolding validate_graph str_eq has add
review_loop_clean = refl

reachable_iff_example :
    (has "done" (reachable review_loop) ≡ true) ↔ Reaches review_loop.transitions "plan" "done"
reachable_iff_example = reachable_iff review_loop "done"

reaches_back_iff_example :
    (reaches_back "build" "build" review_loop.transitions ≡ true)
    ↔ Reaches review_loop.transitions "build" "build"
reaches_back_iff_example = reaches_back_iff "build" "build" review_loop.transitions

validate_graph-IsValid_example : IsValid review_loop
validate_graph-IsValid_example = validate_graph-IsValid review_loop review_loop_clean
