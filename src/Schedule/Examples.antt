-- ===== src/Schedule/Examples.antt =====
-- Small plans, what the validator does on them, and the theorems at them.
use elt_pipeline.Prelude.{
  ℕ, String, ◌≡◌, refl, ◌≤◌, ◌<◌, ◌==◌, eq_iff, false, true, none, List, [], ◌∷◌, ok, raise, arith,
  if◌then◌else◌, Bool-cases, inl, inr,
}
use elt_pipeline.Prelude.Names.{elem, count, add, sorted}
use elt_pipeline.Prelude.Dict.{get, put, get_or}
use elt_pipeline.Schedule.Model.{ScheduledCliJob, SchedulePlan, cyclic_dependency, names}
use elt_pipeline.Schedule.Order.{topological_sort_schedule_jobs, by_index}
use elt_pipeline.Schedule.Order.Edges.{edge_count}
use elt_pipeline.Schedule.Order.Correct.{IsKnown}
use elt_pipeline.Schedule.Plan.{validate_dependencies}
use elt_pipeline.Schedule.Plan.References.{IsIrreflexive}
use elt_pipeline.Schedule.Plan.Accepts.{IsSchedule, validate_dependencies_sound}
use elt_pipeline.Schedule.Plan.Cycles.{
  IsRanked, validate_dependencies_complete, validate_dependencies_cycle,
  validate_dependencies_repeated_name,
}

abbrev pub job : String → List String → ScheduledCliJob
job name deps = record {
  name = name;
  argv = "validate-config" ∷ [];
  retries = 1;
  retry_delay_seconds = 0;
  depends_on = deps;
  wait_for = none;
  sla_seconds = none;
}

abbrev pub plan_of : List ScheduledCliJob → SchedulePlan
plan_of jobs = record { jobs = jobs; continue_on_error = false }

abbrev pub diamond : SchedulePlan
diamond = plan_of (
    job "load" ("left" ∷ "right" ∷ [])
    ∷ job "right" ("extract" ∷ [])
    ∷ job "left" ("extract" ∷ [])
    ∷ job "extract" []
    ∷ [])

abbrev pub diamond_order : List String
diamond_order = "extract" ∷ "right" ∷ "left" ∷ "load" ∷ []

-- What a run unfolds.
program : Unit {0}
unfolding validate_dependencies topological_sort_schedule_jobs elem get put get_or by_index sorted
    add
program = tt

diamond_sorted : topological_sort_schedule_jobs diamond.jobs ≡ ok diamond_order
unfolding program
diamond_sorted = refl

diamond_accepted : validate_dependencies diamond ≡ ok diamond
unfolding program
diamond_accepted = refl

validate_dependencies_sound_example :
    (diamond ≡ diamond)
    × IsKnown diamond.jobs
    × IsIrreflexive diamond.jobs
    × ((n : String) → count n (names diamond.jobs) ≤ 1)
    × ((order : List String) × (topological_sort_schedule_jobs diamond.jobs ≡ ok order)
        × IsSchedule diamond.jobs order)
validate_dependencies_sound_example = validate_dependencies_sound diamond diamond diamond_accepted

abbrev chain : SchedulePlan
chain = plan_of (job "load" ("extract" ∷ []) ∷ job "extract" [] ∷ [])

abbrev step : String → ℕ
step n = if n == "load" then 1 else 0

chain-IsKnown : IsKnown chain.jobs
unfolding elem
chain-IsKnown = (λ dep i. ground arith, (λ dep i. cc, tt))

chain-IsRanked : IsRanked step chain.jobs
unfolding elem
chain-IsRanked = (
  λ dep i. elim (Bool-cases (dep == "extract")) [
    | inl listed ↦ rw ((eq_iff dep "extract").0 listed) (omega arith)
    | inr other ↦ absurd (ground arith)
  ],
  (λ dep i. cc, tt),
)

chain_distinct : (n : String) → count n (names chain.jobs) ≤ 1
unfolding count
chain_distinct n = elim (Bool-cases (n == "load")) [
  | inl first ↦ rw ((eq_iff n "load").0 first) (omega arith)
  | inr other ↦ rw other (ground arith)
]

validate_dependencies_complete_example : validate_dependencies chain ≡ ok chain
validate_dependencies_complete_example =
    validate_dependencies_complete step chain chain-IsKnown chain-IsRanked chain_distinct

abbrev loop : SchedulePlan
loop = plan_of (job "a" ("b" ∷ []) ∷ job "b" ("a" ∷ []) ∷ job "c" [] ∷ [])

loop_refused : validate_dependencies loop ≡ raise (cyclic_dependency ("a" ∷ "b" ∷ []))
unfolding program
loop_refused = refl

loop-IsKnown : IsKnown loop.jobs
unfolding elem
loop-IsKnown = (λ dep i. ground arith, (λ dep i. ground arith, (λ dep i. cc, tt)))

loop-IsIrreflexive : IsIrreflexive loop.jobs
unfolding elem
loop-IsIrreflexive = (refl, (refl, (refl, tt)))

a_listed : elem "a" ("a" ∷ "b" ∷ []) ≡ true
unfolding elem
a_listed = refl

validate_dependencies_cycle_example :
    (elem "a" (names loop.jobs) ≡ true)
    × ((d : String) × (0 < edge_count d "a" loop.jobs) × (elem d ("a" ∷ "b" ∷ []) ≡ true))
validate_dependencies_cycle_example =
    validate_dependencies_cycle loop ("a" ∷ "b" ∷ []) "a" loop-IsKnown loop-IsIrreflexive
      loop_refused a_listed

abbrev twice : SchedulePlan
twice = plan_of (job "load" [] ∷ job "load" [] ∷ [])

twice-IsKnown : IsKnown twice.jobs
unfolding elem
twice-IsKnown = (λ dep i. cc, (λ dep i. cc, tt))

twice-IsRanked : IsRanked step twice.jobs
unfolding elem
twice-IsRanked = (λ dep i. cc, (λ dep i. cc, tt))

load_repeats : 1 < count "load" (names twice.jobs)
unfolding count
load_repeats = omega arith

validate_dependencies_repeated_name_example :
    validate_dependencies twice ≡ raise (cyclic_dependency [])
validate_dependencies_repeated_name_example =
    validate_dependencies_repeated_name step twice "load" twice-IsKnown twice-IsRanked load_repeats
