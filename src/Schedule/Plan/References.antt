-- ===== src/Schedule/Plan/References.antt =====
-- The reference checks of `validate_dependencies`.
use elt_pipeline.Prelude.{
  String, ◌≡◌, refl, Bool, true, false, not, List, [], ◌∷◌, eq_iff, arith, ok, inl, inr, Bool-cases,
  All, filter, is_empty,
}
use elt_pipeline.Prelude.Names.{elem}
use elt_pipeline.Schedule.Model.{ScheduledCliJob}
use elt_pipeline.Schedule.Order.Links.{DepsAll}
use elt_pipeline.Schedule.Plan.{unknown_deps, check_references}

module _ (p : String → Bool) where
  filter_none :
      (xs : List String) (x : String)
      → is_empty (filter (λ d. not (p d)) xs) ≡ true
      → elem x xs ≡ true
      → p x ≡ true
  unfolding elem
  filter_none [] x h i = cc
  filter_none (y ∷ xs) x h i = ground (arith, filter_none xs x, eq_iff x y)

  filter_empty :
      (xs : List String)
      → ((x : String) → elem x xs ≡ true → p x ≡ true)
      → is_empty (filter (λ d. not (p d)) xs) ≡ true
  unfolding elem
  filter_empty [] h = refl
  filter_empty (y ∷ xs) h =
      ground (arith, filter_empty xs (λ x i. h x (ground arith)), h y, eq_iff y y)

-- No job lists its own name.
abbrev pub IsIrreflexive : List ScheduledCliJob → Type 0
IsIrreflexive = All (λ job. elem job.name job.depends_on ≡ false)

module _ (ns : List String) where
  pub check_references-known :
      (jobs : List ScheduledCliJob)
      → check_references ns jobs ≡ ok tt
      → DepsAll (λ dep. elem dep ns) jobs × IsIrreflexive jobs
  unfolding check_references
  check_references-known [] h = (tt, tt)
  check_references-known (job ∷ jobs) h = elim (Bool-cases (is_empty (unknown_deps ns job))) [
    | inr unknown ↦ absurd (ground arith)
    | inl known ↦ elim (Bool-cases (elem job.name job.depends_on)) [
      | inl itself ↦ absurd (ground arith)
      | inr other ↦
          let rest = check_references-known jobs (ground arith) in
          (
            (λ dep i. filter_none (λ d. elem d ns) job.depends_on dep known i, rest.0),
            (other, rest.1),
          )
    ]
  ]

  pub check_references-ok :
      (jobs : List ScheduledCliJob)
      → DepsAll (λ dep. elem dep ns) jobs
      → IsIrreflexive jobs
      → check_references ns jobs ≡ ok tt
  unfolding check_references
  check_references-ok [] k r = refl
  check_references-ok (job ∷ jobs) k r =
      rw (filter_empty (λ d. elem d ns) job.depends_on k.0)
        (rw r.0 (check_references-ok jobs k.1 r.1))
