-- ===== src/Schedule/Plan/Cycles.antt =====
-- When the validator reports a cycle.
use elt_pipeline.Prelude.{
  ℕ, zero, suc, String, ◌≡◌, refl, true, false, not, List, [], ◌∷◌, ◌≤◌, ◌<◌, eq_iff, arith, ok,
  raise, inl, inr, ◌&&◌, ◌∙◌, Bool-cases, All, length, ap, ltb, ltb→lt, ◌||◌, subst,
}
use elt_pipeline.Prelude.Names.{
  elem, add, count, elem-of_count, elem-add, sorted, elem-sorted, elem-filter,
}
use elt_pipeline.Schedule.Model.{ScheduledCliJob, SchedulePlan, cyclic_dependency, names}
use elt_pipeline.Schedule.Order.Edges.{edge_count}
use elt_pipeline.Schedule.Order.Correct.{IsKnown, IsOrder}
use elt_pipeline.Schedule.Order.Sizes.{length-indegrees-lt, length-indegrees}
use elt_pipeline.Schedule.Plan.{to_set, remaining, validate_dependencies}
use elt_pipeline.Schedule.Plan.References.{IsIrreflexive}
use elt_pipeline.Schedule.Plan.Accepts.{validate_dependencies-eq}

-- An edge is a dependency that a job lists.
edge_rule :
    (Q : String → String → Type 0) (d n : String) (jobs : List ScheduledCliJob)
    → All (λ job. (dep : String) → elem dep job.depends_on ≡ true → Q dep job.name) jobs
    → 0 < edge_count d n jobs
    → Q d n
unfolding edge_count
edge_rule Q d n [] h e = absurd (omega arith)
edge_rule Q d n (job ∷ jobs) h e = elim (Bool-cases (ltb 0 (edge_count d n jobs))) [
  | inl later ↦ edge_rule Q d n jobs h.1 (ltb→lt _ _ later)
  | inr here ↦
      subst (Q d) ((eq_iff job.name n).0 (ground arith))
        (h.0 d (elem-of_count d job.depends_on (ground arith)))
]

-- Every dependency is ranked below the job that lists it, so there is no cycle.
abbrev pub IsRanked : (String → ℕ) → List ScheduledCliJob → Type 0
IsRanked rank =
    All (λ job. (dep : String) → elem dep job.depends_on ≡ true → rank dep < rank job.name)

module _ (rank : String → ℕ) (jobs : List ScheduledCliJob) (known : IsKnown jobs)
    (ranked : IsRanked rank jobs) where
  known_All :
      All
        (λ job. (dep : String) → elem dep job.depends_on ≡ true → elem dep (names jobs) ≡ true)
        jobs
  known_All = known

  all_placed :
      (order : List String)
      → IsOrder jobs order
      → (k : ℕ) (n : String) → rank n < k
      → elem n (names jobs) ≡ true
      → elem n order ≡ true
  all_placed order o zero n h i = absurd (omega arith)
  all_placed order o (suc k) n h i = elim (Bool-cases (elem n order)) [
    | inl placed ↦ placed
    | inr open_name ↦
        let (d, edge, d_open) = o.stuck n i open_name in
        let lower : rank d < rank n = edge_rule (λ d n. rank d < rank n) d n jobs ranked edge in
        let job : elem d (names jobs) ≡ true =
          edge_rule (λ d n. elem d (names jobs) ≡ true) d n jobs known_All edge in
        absurd (ground (arith, all_placed order o k d (omega arith) job))
  ]

  ranked-IsIrreflexive : IsIrreflexive jobs
  ranked-IsIrreflexive = go jobs ranked
    where
      go : (js : List ScheduledCliJob) → IsRanked rank js → IsIrreflexive js
      go [] r = tt
      go (job ∷ js) r = (
        elim (Bool-cases (elem job.name job.depends_on)) [
          | inl itself ↦ absurd (omega (arith, r.0 job.name itself))
          | inr other ↦ other
        ],
        go js r.1,
      )

-- A plan without unknown references, repeated names or cycles is accepted.
pub validate_dependencies_complete :
    (rank : String → ℕ) (plan : SchedulePlan)
    → IsKnown plan.jobs
    → IsRanked rank plan.jobs
    → ((n : String) → count n (names plan.jobs) ≤ 1)
    → validate_dependencies plan ≡ ok plan
validate_dependencies_complete rank plan known ranked distinct =
    let (order, sorts, facts, e) =
      validate_dependencies-eq plan known (ranked-IsIrreflexive rank plan.jobs known ranked) in
    let full = facts.total (λ n i.
      all_placed rank plan.jobs known ranked order facts (suc (rank n)) n (omega arith) i) in
    let same : length order ≡ length plan.jobs =
      omega (arith, length-indegrees plan.jobs distinct) in
    ground (arith, e)

elem-to_set : (n : String) (s xs : List String) → elem n (to_set s xs) ≡ (elem n s || elem n xs)
unfolding to_set elem
elem-to_set n s [] = ground arith
elem-to_set n s (x ∷ xs) = ground (arith, elem-to_set n (add x s) xs, elem-add n x s)

pub elem-remaining :
    (n : String) (jobs : List ScheduledCliJob) (order : List String)
    → elem n (remaining jobs order) ≡ (elem n (names jobs) && not (elem n order))
unfolding remaining elem
elem-remaining n jobs order = ground (
  arith,
  elem-filter (λ m. not (elem m order)) n (to_set [] (names jobs)),
  elem-to_set n [] (names jobs),
)

-- The refusal with a cycle comes with the names that the sort could not place.
module _ (plan : SchedulePlan) (ns : List String) (known : IsKnown plan.jobs)
    (irreflexive : IsIrreflexive plan.jobs)
    (refused : validate_dependencies plan ≡ raise (cyclic_dependency ns)) where
  refused-IsOrder :
      (order : List String) × IsOrder plan.jobs order × (ns ≡ sorted (remaining plan.jobs order))
  refused-IsOrder =
      let (order, sorts, facts, e) = validate_dependencies-eq plan known irreflexive in
      (order, facts, ground (arith, e))

-- Each name that a cycle refusal lists is a job, and depends on another name of the list: followed
-- from there, the dependencies never leave the list, so it holds a cycle if it is not empty.
pub validate_dependencies_cycle :
    (plan : SchedulePlan) (ns : List String) (n : String)
    → IsKnown plan.jobs
    → IsIrreflexive plan.jobs
    → validate_dependencies plan ≡ raise (cyclic_dependency ns)
    → elem n ns ≡ true
    → (elem n (names plan.jobs) ≡ true)
      × ((d : String) × (0 < edge_count d n plan.jobs) × (elem d ns ≡ true))
validate_dependencies_cycle plan ns n known irreflexive refused i =
    let (order, facts, e) = refused-IsOrder plan ns known irreflexive refused in
    let listed = λ (m : String).
      ap (elem m) e
      ∙ elem-sorted m (remaining plan.jobs order)
      ∙ elem-remaining m plan.jobs order in
    let job : elem n (names plan.jobs) ≡ true = ground (arith, listed n) in
    let (d, edge, d_open) = facts.stuck n job (ground (arith, listed n)) in
    let d_job : elem d (names plan.jobs) ≡ true =
      edge_rule (λ d n. elem d (names plan.jobs) ≡ true) d n plan.jobs known edge in
    (job, (d, edge, ground (arith, listed d)))

no_elem : (xs : List String) → ((n : String) → elem n xs ≡ false) → xs ≡ []
unfolding elem
no_elem [] h = refl
no_elem (x ∷ xs) h = absurd (ground (arith, h x, eq_iff x x))

-- A plan with no cycle in which a name stands twice is refused as cyclic, with an empty list of
-- the jobs in the cycle.
pub validate_dependencies_repeated_name :
    (rank : String → ℕ) (plan : SchedulePlan) (n : String)
    → IsKnown plan.jobs
    → IsRanked rank plan.jobs
    → 1 < count n (names plan.jobs)
    → validate_dependencies plan ≡ raise (cyclic_dependency [])
unfolding sorted
validate_dependencies_repeated_name rank plan n known ranked twice =
    let (order, sorts, facts, e) =
      validate_dependencies-eq plan known (ranked-IsIrreflexive rank plan.jobs known ranked) in
    let placed = λ (m : String) (i : elem m (names plan.jobs) ≡ true).
      all_placed rank plan.jobs known ranked order facts (suc (rank m)) m (omega arith) i in
    let none_left : remaining plan.jobs order ≡ [] =
      no_elem (remaining plan.jobs order)
        (λ m. ground (arith, elem-remaining m plan.jobs order, placed m)) in
    let short : length order < length plan.jobs =
      omega (arith, facts.short, length-indegrees-lt plan.jobs n twice) in
    e ∙ rw none_left (ground arith)
