-- ===== src/Schedule/Plan/Accepts.antt =====
-- What the validator accepts and what it refuses.
use elt_pipeline.Prelude.{
  String, ◌≡◌, refl, List, ◌∷◌, ◌++◌, ◌≤◌, arith, ok, ◌>>◌, guard, inl, inr, Bool-cases, length,
  eqb, eqb→eq, Attempt, >>=_returns, ltb, ltb→lt,
}
use elt_pipeline.Prelude.Names.{elem, count, sorted}
use elt_pipeline.Schedule.Model.{
  ScheduledCliJob, SchedulePlan, PlanError, cyclic_dependency, names, bit,
}
use elt_pipeline.Schedule.Order.{topological_sort_schedule_jobs, indegrees}
use elt_pipeline.Schedule.Order.Correct.{IsKnown, DepsIn, IsOrder, topological_sort_returns}
use elt_pipeline.Schedule.Order.Sizes.{length-indegrees-le, length-indegrees-lt}
use elt_pipeline.Schedule.Plan.{check_references, remaining, validate_dependencies}
use elt_pipeline.Schedule.Plan.References.{
  IsIrreflexive, check_references-known, check_references-ok,
}

-- An order in which every job of the plan stands once, behind all of its dependencies.
pub record IsSchedule (jobs : List ScheduledCliJob) (order : List String) : Type 0 where
  pub once : (n : String) → count n order ≡ bit (elem n (names jobs))
  pub first : (xs ys : List String) (n : String) → order ≡ xs ++ n ∷ ys → DepsIn xs n jobs

-- What is left of the validation once the references are fine and the sort has returned.
abbrev pub verdict : SchedulePlan → List String → Attempt PlanError SchedulePlan
verdict plan order = do
  guard (eqb (length order) (length plan.jobs))
      (cyclic_dependency (sorted (remaining plan.jobs order)))
  ok plan

module _ (plan : SchedulePlan) (known : IsKnown plan.jobs)
    (irreflexive : IsIrreflexive plan.jobs) where
  pub validate_dependencies-eq :
      (order : List String) × (topological_sort_schedule_jobs plan.jobs ≡ ok order)
      × IsOrder plan.jobs order
      × (validate_dependencies plan ≡ verdict plan order)
  unfolding validate_dependencies
  validate_dependencies-eq =
      let (order, sorts, facts) = topological_sort_returns plan.jobs known in
      (
        order,
        sorts,
        facts,
        rw (check_references-ok (names plan.jobs) plan.jobs known irreflexive) (rw sorts refl),
      )

module _ (plan p : SchedulePlan) (accepted : validate_dependencies plan ≡ ok p) where
  accepted_references : IsKnown plan.jobs × IsIrreflexive plan.jobs
  unfolding validate_dependencies
  accepted_references =
      let (_, refs, _) = >>=_returns (check_references (names plan.jobs) plan.jobs) _ accepted in
      check_references-known (names plan.jobs) plan.jobs refs

  -- The length test passed.
  accepted_full :
      (order : List String)
      → validate_dependencies plan ≡ verdict plan order
      → (p ≡ plan) × (length order ≡ length plan.jobs)
  accepted_full order e = elim (Bool-cases (eqb (length order) (length plan.jobs))) [
    | inr differs ↦ absurd (ground (arith, e))
    | inl same ↦ (ground (arith, e), eqb→eq _ _ same)
  ]

  distinct :
      (n : String) → length (indegrees plan.jobs) ≡ length plan.jobs → count n (names plan.jobs) ≤ 1
  distinct n same = elim (Bool-cases (ltb 1 (count n (names plan.jobs)))) [
    | inl twice ↦ absurd (omega (arith, length-indegrees-lt plan.jobs n (ltb→lt _ _ twice)))
    | inr once ↦ ground arith
  ]

-- A plan that the validator accepts is returned as it is; its references are known, no job depends
-- on itself, no name stands twice, and the sort returns an order in which every job stands once,
-- behind all of its dependencies.
pub validate_dependencies_sound :
    (plan p : SchedulePlan)
    → validate_dependencies plan ≡ ok p
    → (p ≡ plan)
      × IsKnown plan.jobs
      × IsIrreflexive plan.jobs
      × ((n : String) → count n (names plan.jobs) ≤ 1)
      × ((order : List String) × (topological_sort_schedule_jobs plan.jobs ≡ ok order)
          × IsSchedule plan.jobs order)
validate_dependencies_sound plan p h =
    let (known, irreflexive) = accepted_references plan p h in
    let (order, sorts, facts, e) = validate_dependencies-eq plan known irreflexive in
    let (same, full) = accepted_full plan p h order e in
    let total : length order ≡ length (indegrees plan.jobs) =
      omega (arith, facts.short, length-indegrees-le plan.jobs) in
    (
      same,
      known,
      irreflexive,
      λ n. distinct plan p h n (omega arith),
      (order, sorts, record { once = facts.full total; first = facts.first }),
    )
