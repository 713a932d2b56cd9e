-- ===== src/Budget/Monotone.antt =====
-- packages/core/src/budget.ts: what `status` reports, and that no consumption takes it back.
use mathlib.Core.List.Memᴰ
use mathlib.Core.List.{Memᴰ}
use ai_orchestration.Prelude.{
  ℕ, String, ◌+◌, ◌*◌, ◌≤◌, ◌≡◌, refl, sym, ap, subst, ◌↔◌, ◌⊎◌, inl, inr, true, Option, none, some,
  List, [], ◌∷◌, leb, arith, Bool-cases, leb→le, str_eq_iff,
}
use ai_orchestration.Prelude.Dict.{Dict, count_of, insert, count_of-insert}
use mathlib.Core.Option.{some-injective}
use ai_orchestration.Budget.Tracker.{
  BudgetTracker, BudgetDimension, BudgetConsumption, Found, max_concurrent_agents,
  max_subagents_per_run, max_iterations, max_wall_clock_ms, max_tokens, max_estimated_cost_usd,
  max_subscription_requests, provider_quota, check, check_all, Meter, meters, quota_meters, status,
  consume, record_quotas, record_delta,
}

-- A dimension with a declared limit: what was used of it, and the limit.
pub data Metered (t : BudgetTracker) : BudgetDimension → ℕ → ℕ → Type 0 where
  tokens : {l : ℕ} → t.budget.limits.max_tokens ≡ some l → Metered t max_tokens t.tokens l
  cost :
      {l : ℕ}
      → t.budget.limits.max_estimated_cost_usd ≡ some l
      → Metered t max_estimated_cost_usd t.cost_usd l
  requests :
      {l : ℕ}
      → t.budget.limits.max_subscription_requests ≡ some l
      → Metered t max_subscription_requests t.requests l
  iterations :
      {l : ℕ} → t.budget.limits.max_iterations ≡ some l → Metered t max_iterations t.iterations l
  wall_clock :
      {l : ℕ}
      → t.budget.limits.max_wall_clock_ms ≡ some l
      → Metered t max_wall_clock_ms t.wall_clock_ms l
  quota :
      {k : String} {l : ℕ}
      → Memᴰ (k, l) t.budget.limits.provider_quotas
      → Metered t (provider_quota k) (count_of k t.quotas) l

pub IsExhausted : BudgetTracker → BudgetDimension → Type 0
IsExhausted t d = (used limit : ℕ) × Metered t d used limit × (limit ≤ used)

-- One call of `check`, which adds at most its own dimension.
abbrev Hit : BudgetDimension → ℕ → Option ℕ → BudgetDimension → Type 0
Hit dim used lim d = (l : ℕ) × (dim ≡ d) × (lim ≡ some l) × (l ≤ used)

check_sound :
    (num den : ℕ) (dim : BudgetDimension) (used : ℕ) (lim : Option ℕ) (f : Found)
    (d : BudgetDimension)
    → Memᴰ d (check num den dim used lim f).0
    → Memᴰ d f.0 ⊎ Hit dim used lim d
unfolding check
check_sound num den dim used none f d m = inl m
check_sound num den dim used (some l) (ex, wa) d m = elim (Bool-cases (leb l used)) [
  | inl e ↦ elim (Memᴰ.append_cases ex (rw e at m)) [
    | inl r ↦ inl r
    | inr r ↦ inr (l, sym (Memᴰ.eq_of_singleton r), refl, leb→le l used e)
  ]
  | inr e ↦ elim (Bool-cases (leb (l * num) (used * den))) [
    | inl w ↦ inl (rw (e, w) at m)
    | inr w ↦ inl (rw (e, w) at m)
  ]
]

check_old :
    (num den : ℕ) (dim : BudgetDimension) (used : ℕ) (lim : Option ℕ) (f : Found)
    {d : BudgetDimension}
    → Memᴰ d f.0
    → Memᴰ d (check num den dim used lim f).0
unfolding check
check_old num den dim used none f m = m
check_old num den dim used (some l) (ex, wa) {d} m = elim (Bool-cases (leb l used)) [
  | inl e ↦ rw e (Memᴰ.append_left (dim ∷ []) m)
  | inr e ↦ elim (Bool-cases (leb (l * num) (used * den))) [
    | inl w ↦ rw (e, w) m
    | inr w ↦ rw (e, w) m
  ]
]

check_new :
    (num den : ℕ) (dim : BudgetDimension) (used l : ℕ) (lim : Option ℕ) (f : Found)
    → lim ≡ some l
    → l ≤ used
    → Memᴰ dim (check num den dim used lim f).0
unfolding check
check_new num den dim used l lim f e h =
    rw e (let t : leb l used ≡ true = ground arith in rw t (Memᴰ.append_right f.0 (Memᴰ.head refl)))

check_all_sound :
    (num den : ℕ) (ms : List Meter) (f : Found) (d : BudgetDimension)
    → Memᴰ d (check_all num den ms f).0
    → Memᴰ d f.0 ⊎ ((m : Meter) × Memᴰ m ms × Hit m.dimension m.used m.limit d)
unfolding check_all
check_all_sound num den [] f d mem = inl mem
check_all_sound num den (m ∷ ms) f d mem = elim (check_all_sound num den ms _ d mem) [
  | inr (m', at, hit) ↦ inr (m', Memᴰ.tail at, hit)
  | inl old ↦ elim (check_sound num den m.dimension m.used m.limit f d old) [
    | inl r ↦ inl r
    | inr hit ↦ inr (m, Memᴰ.head refl, hit)
  ]
]

check_all_old :
    (num den : ℕ) (ms : List Meter) (f : Found) {d : BudgetDimension}
    → Memᴰ d f.0
    → Memᴰ d (check_all num den ms f).0
unfolding check_all
check_all_old num den [] f mem = mem
check_all_old num den (m ∷ ms) f mem =
    check_all_old num den ms _ (check_old num den m.dimension m.used m.limit f mem)

check_all_new :
    (num den : ℕ) (ms : List Meter) (f : Found) (m : Meter) (l : ℕ)
    → Memᴰ m ms
    → m.limit ≡ some l
    → l ≤ m.used
    → Memᴰ m.dimension (check_all num den ms f).0
unfolding check_all
check_all_new num den [] f m l mem e h = absurd (Memᴰ.not-nil mem)
check_all_new num den (x ∷ ms) f m l (Memᴰ.head q) e h = check_all_old num den ms _ (
    subst (λ (y : Meter). Memᴰ m.dimension (check num den y.dimension y.used y.limit f).0) q
      (check_new num den m.dimension m.used l m.limit f e h))
check_all_new num den (x ∷ ms) f m l (Memᴰ.tail mem) e h = check_all_new num den ms _ m l mem e h

quota-Metered :
    (t : BudgetTracker) (limits : Dict ℕ) (m : Meter) {l : ℕ}
    → Memᴰ m (quota_meters t.quotas limits)
    → m.limit ≡ some l
    → ((k : String) (l : ℕ) → Memᴰ (k, l) limits → Memᴰ (k, l) t.budget.limits.provider_quotas)
    → Metered t m.dimension m.used l
unfolding quota_meters
quota-Metered t [] m mem e sub = absurd (Memᴰ.not-nil mem)
quota-Metered t ((k, v) ∷ rest) m {l} (Memᴰ.head q) e sub =
    subst (λ (y : Meter). y.limit ≡ some l → Metered t y.dimension y.used l) (sym q)
      (λ e'.
        Metered.quota (sub k l (Memᴰ.head (ap (λ (n : ℕ). (k, n)) (sym (some-injective v l e'))))))
      e
quota-Metered t ((k, v) ∷ rest) m (Memᴰ.tail mem) e sub =
    quota-Metered t rest m mem e (λ k' l' at. sub k' l' (Memᴰ.tail at))

meters_sound :
    (t : BudgetTracker) (m : Meter) {l : ℕ}
    → Memᴰ m (meters t)
    → m.limit ≡ some l
    → Metered t m.dimension m.used l
unfolding meters
meters_sound t m {l} (Memᴰ.head q) e =
    subst (λ (y : Meter). y.limit ≡ some l → Metered t y.dimension y.used l) (sym q) Metered.tokens
      e
meters_sound t m {l} (Memᴰ.tail (Memᴰ.head q)) e =
    subst (λ (y : Meter). y.limit ≡ some l → Metered t y.dimension y.used l) (sym q) Metered.cost e
meters_sound t m {l} (Memᴰ.tail (Memᴰ.tail (Memᴰ.head q))) e =
    subst (λ (y : Meter). y.limit ≡ some l → Metered t y.dimension y.used l) (sym q)
      Metered.requests e
meters_sound t m {l} (Memᴰ.tail (Memᴰ.tail (Memᴰ.tail (Memᴰ.head q)))) e =
    subst (λ (y : Meter). y.limit ≡ some l → Metered t y.dimension y.used l) (sym q)
      Metered.iterations e
meters_sound t m {l} (Memᴰ.tail (Memᴰ.tail (Memᴰ.tail (Memᴰ.tail (Memᴰ.head q))))) e =
    subst (λ (y : Meter). y.limit ≡ some l → Metered t y.dimension y.used l) (sym q)
      Metered.wall_clock e
meters_sound t m (Memᴰ.tail (Memᴰ.tail (Memᴰ.tail (Memᴰ.tail (Memᴰ.tail mem))))) e =
    quota-Metered t t.budget.limits.provider_quotas m mem e (λ k l at. at)

mem-quota_meters :
    (quotas limits : Dict ℕ) {k : String} {l : ℕ}
    → Memᴰ (k, l) limits
    → Memᴰ
        (record { dimension = provider_quota k; used = count_of k quotas; limit = some l })
        (quota_meters quotas limits)
unfolding quota_meters
mem-quota_meters quotas [] m = absurd (Memᴰ.not-nil m)
mem-quota_meters quotas ((k, l) ∷ rest) (Memᴰ.head e) = Memᴰ.head (
    ap
      (λ (p : String × ℕ).
        let m : Meter = record {
          dimension = provider_quota p.0;
          used = count_of p.0 quotas;
          limit = some p.1;
        } in
        m)
      e)
mem-quota_meters quotas ((k, l) ∷ rest) (Memᴰ.tail m) = Memᴰ.tail (mem-quota_meters quotas rest m)

meters_complete :
    (t : BudgetTracker) {d : BudgetDimension} {used l : ℕ}
    → Metered t d used l
    → (m : Meter) × Memᴰ m (meters t) × (m.dimension ≡ d) × (m.used ≡ used) × (m.limit ≡ some l)
unfolding meters
meters_complete t (Metered.tokens e) = (_, Memᴰ.head refl, refl, refl, e)
meters_complete t (Metered.cost e) = (_, Memᴰ.tail (Memᴰ.head refl), refl, refl, e)
meters_complete t (Metered.requests e) = (_, Memᴰ.tail (Memᴰ.tail (Memᴰ.head refl)), refl, refl, e)
meters_complete t (Metered.iterations e) =
    (_, Memᴰ.tail (Memᴰ.tail (Memᴰ.tail (Memᴰ.head refl))), refl, refl, e)
meters_complete t (Metered.wall_clock e) =
    (_, Memᴰ.tail (Memᴰ.tail (Memᴰ.tail (Memᴰ.tail (Memᴰ.head refl)))), refl, refl, e)
meters_complete t (Metered.quota {k} {l} m) = (
  record { dimension = provider_quota k; used = count_of k t.quotas; limit = some l },
  Memᴰ.tail (
      Memᴰ.tail (
        Memᴰ.tail
          (Memᴰ.tail (Memᴰ.tail (mem-quota_meters t.quotas t.budget.limits.provider_quotas m))))),
  refl,
  refl,
  refl,
)

found_sound :
    (t : BudgetTracker) (d : BudgetDimension)
    → Memᴰ d (status t).exhausted_dimensions
    → IsExhausted t d
unfolding status IsExhausted
found_sound t d mem = elim (check_all_sound t.warning_num t.warning_den (meters t) ([], []) d mem) [
  | inl none_yet ↦ absurd (Memᴰ.not-nil none_yet)
  | inr (m, at, (l, e, s, h)) ↦ subst (IsExhausted t) e (m.used, l, meters_sound t m at s, h)
]

found_complete :
    (t : BudgetTracker) {d : BudgetDimension} {used l : ℕ}
    → Metered t d used l
    → l ≤ used
    → Memᴰ d (status t).exhausted_dimensions
unfolding status
found_complete t meter h =
    let (m, at, e, u, s) = meters_complete t meter in
    subst (λ d. Memᴰ d (check_all t.warning_num t.warning_den (meters t) ([], [])).0) e
      (check_all_new t.warning_num t.warning_den (meters t) ([], []) m _ at s (omega arith))

lists-IsExhausted :
    (t : BudgetTracker) (d : BudgetDimension)
    → Memᴰ d (status t).exhausted_dimensions ↔ IsExhausted t d
unfolding IsExhausted
lists-IsExhausted t d = (found_sound t d, λ (used, l, m, h). found_complete t m h)

not_concurrent_agents : (t : BudgetTracker) → ¬ IsExhausted t max_concurrent_agents
unfolding IsExhausted
not_concurrent_agents t (used, l, m, h) = elim m [ ]

not_subagents : (t : BudgetTracker) → ¬ IsExhausted t max_subagents_per_run
unfolding IsExhausted
not_subagents t (used, l, m, h) = elim m [ ]

-- `status` lists tokens, cost, subscription requests, iterations, wall clock or a provider quota as
-- exhausted exactly when the budget declares a limit for it and what was used has reached the
-- limit; it never lists concurrent agents or sub-agents, whatever limits the budget declares.
pub status-IsExhausted_iff :
    (t : BudgetTracker)
    → ((d : BudgetDimension) → Memᴰ d (status t).exhausted_dimensions ↔ IsExhausted t d)
      × ¬ Memᴰ max_concurrent_agents (status t).exhausted_dimensions
      × ¬ Memᴰ max_subagents_per_run (status t).exhausted_dimensions
status-IsExhausted_iff t = (
  lists-IsExhausted t,
  λ m. not_concurrent_agents t ((lists-IsExhausted t max_concurrent_agents).0 m),
  λ m. not_subagents t ((lists-IsExhausted t max_subagents_per_run).0 m),
)

count_of-record_quotas :
    (quotas deltas : Dict ℕ) (k : String)
    → count_of k quotas ≤ count_of k (record_quotas quotas deltas)
unfolding record_quotas
count_of-record_quotas quotas [] k = omega arith
count_of-record_quotas quotas ((j, v) ∷ rest) k = ground (
  arith,
  count_of-record_quotas (insert j (count_of j quotas + v) quotas) rest k,
  count_of-insert j k (count_of j quotas + v) quotas,
  str_eq_iff j k,
)

consume-Metered :
    (t : BudgetTracker) (delta : BudgetConsumption) {d : BudgetDimension} {used l : ℕ}
    → Metered t d used l
    → (used' : ℕ) × Metered (consume t delta) d used' l × (used ≤ used')
unfolding consume
consume-Metered t delta (Metered.tokens e) = (_, Metered.tokens e, omega arith)
consume-Metered t delta (Metered.cost e) = (_, Metered.cost e, omega arith)
consume-Metered t delta (Metered.requests e) = (_, Metered.requests e, omega arith)
consume-Metered t delta (Metered.iterations e) = (_, Metered.iterations e, omega arith)
consume-Metered t delta (Metered.wall_clock e) = (_, Metered.wall_clock e, omega arith)
consume-Metered t delta (Metered.quota {k} m) =
    (_, Metered.quota m, count_of-record_quotas t.quotas delta.provider_quotas k)

-- A dimension that is exhausted stays so, whatever is recorded next: it is in the status that
-- `record` returns and in every later one.
pub record_delta-exhausted :
    (t : BudgetTracker) (delta : BudgetConsumption) (d : BudgetDimension)
    → Memᴰ d (status t).exhausted_dimensions
    → Memᴰ d (record_delta t delta).1.exhausted_dimensions
unfolding record_delta IsExhausted
record_delta-exhausted t delta d m =
    let (used, l, meter, h) = (lists-IsExhausted t d).0 m in
    let (used', meter', more) = consume-Metered t delta meter in
    (lists-IsExhausted (consume t delta) d).1 (used', l, meter', omega arith)
