-- ===== src/Graph/Validate/Reach.antt =====
-- packages/core/src/graph-validate.ts: the two breadth-first searches decide reachability along
-- the declared transitions, and their fuel suffices.

use mathlib.Core.List.{Memᴰ}
use ai_orchestration.Prelude.{
  ℕ, zero, suc, String, ◌+◌, ◌<◌, ◌≡◌, refl, sym, ap, subst, ◌↔◌, inl, inr, true, false, ◌||◌, List,
  [], ◌∷◌, ◌++◌, str_eq, str_eq_iff, length, length-append, arith, Bool-cases,
}
use ai_orchestration.Prelude.Names.{has, add, has-add, has-append}
use ai_orchestration.Graph.{GraphTransition, WorkflowGraph}
use ai_orchestration.Graph.Validate.{targets, reach_from, enough, reachable, finds, reaches_back}
use ai_orchestration.Graph.Validate.Chains.{
  here, next, Reaches, targets_sound, targets_complete, unseen, unseen-add, unseen-le,
}

module _ (ts : List GraphTransition) where
  -- Nothing but what the queue, the set and the transitions lead to is visited.
  reach_sound :
      (P : String → Type 0)
      → ((t : GraphTransition) → Memᴰ t ts → P t.from → P t.to)
      → (fuel : ℕ) (queue seen : List String) → ((x : String) → has x queue ≡ true → P x)
      → ((x : String) → has x seen ≡ true → P x)
      → (x : String) → has x (reach_from fuel ts queue seen) ≡ true
      → P x
  unfolding reach_from
  reach_sound P step zero queue seen hq hs x h = hs x h
  reach_sound P step (suc fuel) [] seen hq hs x h = hs x h
  reach_sound P step (suc fuel) (c ∷ queue) seen hq hs x h = elim (Bool-cases (has c seen)) [
    | inl old ↦ reach_sound P step fuel queue seen in_queue hs x (rw (old, reach_from) at h)
    | inr new ↦
        reach_sound P step fuel (queue ++ targets c ts) (add c seen) in_more in_added x
          (rw (new, reach_from) at h)
  ]
    where
      at_c : P c
      at_c = hq c (unfold has in ground (arith, str_eq_iff c c))

      in_queue : (y : String) → has y queue ≡ true → P y
      in_queue y e = hq y (unfold has in ground arith)

      in_targets : (y : String) → has y (targets c ts) ≡ true → P y
      in_targets y e =
          let (t, m, f, g) = targets_sound c ts y e in subst P g (step t m (subst P (sym f) at_c))

      in_more : (y : String) → has y (queue ++ targets c ts) ≡ true → P y
      in_more y e = elim (Bool-cases (has y queue)) [
        | inl q ↦ in_queue y q
        | inr n ↦ in_targets y (ground (arith, has-append y queue (targets c ts)))
      ]

      in_added : (y : String) → has y (add c seen) ≡ true → P y
      in_added y e = elim (Bool-cases (str_eq c y)) [
        | inl same ↦ subst P ((str_eq_iff c y).0 same) at_c
        | inr other ↦ hs y (ground (arith, has-add c y seen))
      ]

  abbrev Frontier : List String → List String → Type 0
  Frontier queue seen =
      (t : GraphTransition)
      → Memᴰ t ts
      → has t.from seen ≡ true
      → (has t.to seen || has t.to queue) ≡ true

  abbrev IsClosed : List String → Type 0
  IsClosed seen = (t : GraphTransition) → Memᴰ t ts → has t.from seen ≡ true → has t.to seen ≡ true

  Frontier-pop :
      (c : String) (queue seen : List String)
      → has c seen ≡ true
      → Frontier (c ∷ queue) seen
      → Frontier queue seen
  unfolding has
  Frontier-pop c queue seen old fr t m e =
      ground (arith, fr t m e, str_eq_iff c t.to, λ (q : c ≡ t.to). same q)
    where
      same : c ≡ t.to → has c seen ≡ has t.to seen
      same q = ap (λ x. has x seen) q

  Frontier-visit :
      (c : String) (queue seen : List String)
      → Frontier (c ∷ queue) seen
      → Frontier (queue ++ targets c ts) (add c seen)
  Frontier-visit c queue seen fr t m e = elim (Bool-cases (str_eq c t.from)) [
    | inl from_c ↦
        let found = targets_complete c ts t m (sym ((str_eq_iff c t.from).0 from_c)) in
        ground (arith, has-add c t.to seen, has-append t.to queue (targets c ts), found)
    | inr other ↦
        let before : (has t.to seen || (str_eq c t.to || has t.to queue)) ≡ true =
          unfold has in fr t m (ground (arith, has-add c t.from seen)) in
        ground (arith, has-add c t.to seen, has-append t.to queue (targets c ts), before)
  ]

  -- With enough fuel the search visits all that is queued, and stops at a closed set.
  reach_complete :
      (fuel : ℕ) (queue seen : List String)
      → length queue + unseen seen ts < fuel
      → Frontier queue seen
      → ((x : String)
          → (has x seen || has x queue) ≡ true
          → has x (reach_from fuel ts queue seen) ≡ true)
        × IsClosed (reach_from fuel ts queue seen)
  unfolding reach_from
  reach_complete zero queue seen lt fr = absurd (omega arith)
  reach_complete (suc fuel) [] seen lt fr =
      (λ x h. unfold has in ground arith, λ t m e. let r = fr t m e in unfold has in ground arith)
  reach_complete (suc fuel) (c ∷ queue) seen lt fr = elim (Bool-cases (has c seen)) [
    | inl old ↦
        let r = reach_complete fuel queue seen (omega arith) (Frontier-pop c queue seen old fr) in
        rw (old, reach_from) (λ x h. r.0 x (drop_seen old x h), r.1)
    | inr new ↦
        let r =
          reach_complete fuel (queue ++ targets c ts) (add c seen) (fewer new)
            (Frontier-visit c queue seen fr) in
        rw (new, reach_from) (λ x h. r.0 x (more x h), r.1)
  ]
    where
      drop_seen :
          has c seen ≡ true
          → (x : String) → (has x seen || has x (c ∷ queue)) ≡ true
          → (has x seen || has x queue) ≡ true
      drop_seen old x h = elim (Bool-cases (str_eq c x)) [
        | inl same ↦
            let e : has x seen ≡ true =
              subst (λ y. has y seen ≡ true) ((str_eq_iff c x).0 same) old in
            rw e
        | inr other ↦ unfold has in ground arith
      ]

      fewer : has c seen ≡ false → length (queue ++ targets c ts) + unseen (add c seen) ts < fuel
      fewer new = omega (arith, unseen-add c seen ts new, length-append queue (targets c ts))

      more :
          (x : String)
          → (has x seen || has x (c ∷ queue)) ≡ true
          → (has x (add c seen) || has x (queue ++ targets c ts)) ≡ true
      more x h = unfold has in ground (arith, has-add c x seen, has-append x queue (targets c ts))

  closed-Reaches :
      (a : String) (seen : List String)
      → IsClosed seen
      → has a seen ≡ true
      → {b : String} → Reaches ts a b
      → has b seen ≡ true
  closed-Reaches a seen closed h here = h
  closed-Reaches a seen closed h (next t r m f g) =
      let at_source = closed-Reaches a seen closed h r in
      subst (λ x. has x seen ≡ true) g
        (closed t m (subst (λ x. has x seen ≡ true) (sym f) at_source))

  -- From one id, the search visits exactly what the id reaches.
  visited_iff :
      (a x : String) → (has x (reach_from (enough ts) ts (a ∷ []) []) ≡ true) ↔ Reaches ts a x
  visited_iff a x = (
    reach_sound (Reaches ts a) (λ t m r. next t r m refl refl) (enough ts) (a ∷ []) []
        (λ y h. subst (Reaches ts a) (only y h) here) (λ y h. absurd (empty y h)) x,
    λ r. closed-Reaches a _ all_done.1 (all_done.0 a start) r,
  )
    where
      only : (y : String) → has y (a ∷ []) ≡ true → a ≡ y
      only y h = unfold has in ground (arith, str_eq_iff a y)

      empty : (y : String) → has y [] ≡ true → ⊥
      empty y h = unfold has in cc

      all_done :
          ((y : String)
            → (has y [] || has y (a ∷ [])) ≡ true
            → has y (reach_from (enough ts) ts (a ∷ []) []) ≡ true)
          × IsClosed (reach_from (enough ts) ts (a ∷ []) [])
      all_done =
          reach_complete (enough ts) (a ∷ []) [] (omega (arith, unseen-le [] ts))
            (λ t m h. absurd (empty t.from h))

      start : (has a [] || has a (a ∷ [])) ≡ true
      start = unfold has in ground (arith, str_eq_iff a a)

  reach_keeps :
      (fuel : ℕ) (queue seen : List String) (x : String)
      → has x seen ≡ true
      → has x (reach_from fuel ts queue seen) ≡ true
  unfolding reach_from
  reach_keeps zero queue seen x h = h
  reach_keeps (suc fuel) [] seen x h = h
  reach_keeps (suc fuel) (c ∷ queue) seen x h = elim (Bool-cases (has c seen)) [
    | inl old ↦ rw (old, reach_from) (reach_keeps fuel queue seen x h)
    | inr new ↦
        rw (new, reach_from)
          (reach_keeps fuel (queue ++ targets c ts) (add c seen) x
            (ground (arith, has-add c x seen)))
  ]

  finds-reach_from :
      (fuel : ℕ) (target : String) (queue seen : List String)
      → has target seen ≡ false
      → finds fuel ts target queue seen ≡ has target (reach_from fuel ts queue seen)
  unfolding finds reach_from
  finds-reach_from zero target queue seen h = sym h
  finds-reach_from (suc fuel) target [] seen h = sym h
  finds-reach_from (suc fuel) target (c ∷ queue) seen h = elim (Bool-cases (has c seen)) [
    | inl old ↦ rw (old, finds, reach_from) (finds-reach_from fuel target queue seen h)
    | inr new ↦ elim (Bool-cases (str_eq c target)) [
      | inl this ↦
          rw (new, this, finds, reach_from)
            (sym (
              reach_keeps fuel (queue ++ targets c ts) (add c seen) target
                (ground (arith, has-add c target seen))))
      | inr other ↦
          rw (new, other, finds, reach_from)
            (finds-reach_from fuel target (queue ++ targets c ts) (add c seen)
              (ground (arith, has-add c target seen)))
    ]
  ]

-- `reachable` holds exactly the ids that transitions lead to from the entry.
pub reachable_iff :
    (graph : WorkflowGraph) (x : String)
    → (has x (reachable graph) ≡ true) ↔ Reaches graph.transitions graph.entry x
unfolding reachable
reachable_iff graph x = visited_iff graph.transitions graph.entry x

-- `reachesBack` decides reachability.
pub reaches_back_iff :
    (a b : String) (ts : List GraphTransition) → (reaches_back a b ts ≡ true) ↔ Reaches ts a b
unfolding reaches_back
reaches_back_iff a b ts =
    rw (finds-reach_from ts (enough ts) b (a ∷ []) [] (unfold has in refl)) (visited_iff ts a b)
