-- ===== src/Schedule/Order/Sizes.antt =====
-- The table of degrees has an entry for each distinct name.
use elt_pipeline.Prelude.{
  ℕ, String, ◌≡◌, refl, true, List, [], ◌∷◌, ◌+◌, ◌<◌, ◌==◌, ◌≤◌, eq_iff, if◌then◌else◌, length,
  arith, is_some, ◌∙◌, inl, inr, Bool-cases,
}
use elt_pipeline.Prelude.Names.{elem, count, elem-of_count}
use elt_pipeline.Prelude.Dict.{Dict, get, put, get_or, get-put, ==_comm}
use elt_pipeline.Schedule.Model.{ScheduledCliJob, names}
use elt_pipeline.Schedule.Order.{indegrees, constant_from, count_deps, count_jobs}
use elt_pipeline.Schedule.Order.Edges.{has-constant_from}
use elt_pipeline.Schedule.Order.Tables.{has-count_deps}

length-put :
    {V : Type 0} (d : Dict V) (k : String) (v : V)
    → length (put d k v) ≡ length d + (if is_some (get d k) then 0 else 1)
unfolding put get
length-put [] k v = refl
length-put ((j, w) ∷ d) k v = ground (arith, length-put d k v)

length-count_deps :
    (name : String) (d : Dict ℕ) (deps : List String)
    → is_some (get d name) ≡ true
    → length (count_deps name d deps) ≡ length d
unfolding count_deps
length-count_deps name d [] h = refl
length-count_deps name d (dep ∷ deps) h =
    let d1 = put d name (get_or d name 0 + 1) in
    ground (
      arith,
      length-count_deps name d1 deps,
      length-put d name (get_or d name 0 + 1),
      get-put d name name (get_or d name 0 + 1),
      eq_iff name name,
    )

length-count_jobs :
    (d : Dict ℕ) (jobs : List ScheduledCliJob)
    → ((n : String) → elem n (names jobs) ≡ true → is_some (get d n) ≡ true)
    → length (count_jobs d jobs) ≡ length d
unfolding count_jobs elem
length-count_jobs d [] h = refl
length-count_jobs d (job ∷ jobs) h =
    length-count_jobs (count_deps job.name d job.depends_on) jobs (λ n i. ground (
      arith,
      has-count_deps job.name d job.depends_on n,
      h n,
      h job.name,
      eq_iff job.name job.name,
    ))
    ∙ length-count_deps job.name d job.depends_on
        (h job.name (ground (arith, eq_iff job.name job.name)))

module _ {V : Type 0} (v : V) where
  length-constant_from-le :
      (d : Dict V) (jobs : List ScheduledCliJob)
      → length (constant_from v d jobs) ≤ length d + length jobs
  unfolding constant_from
  length-constant_from-le d [] = omega arith
  length-constant_from-le d (job ∷ jobs) =
      ground (arith, length-constant_from-le (put d job.name v) jobs, length-put d job.name v)

  length-constant_from-lt :
      (d : Dict V) (jobs : List ScheduledCliJob) (n : String)
      → is_some (get d n) ≡ true
      → elem n (names jobs) ≡ true
      → length (constant_from v d jobs) < length d + length jobs
  unfolding constant_from elem
  length-constant_from-lt d [] n h i = cc
  length-constant_from-lt d (job ∷ jobs) n h i = elim (Bool-cases (elem n (names jobs))) [
    | inl later ↦ ground (
      arith,
      length-constant_from-lt (put d job.name v) jobs n,
      length-put d job.name v,
      get-put d job.name n v,
      eq_iff job.name n,
    )
    | inr only ↦ ground (
      arith,
      length-constant_from-le (put d job.name v) jobs,
      length-put d job.name v,
      eq_iff n job.name,
    )
  ]

  length-constant_from-twice :
      (d : Dict V) (jobs : List ScheduledCliJob) (n : String)
      → 1 < count n (names jobs)
      → length (constant_from v d jobs) < length d + length jobs
  unfolding constant_from count
  length-constant_from-twice d [] n h = absurd (omega arith)
  length-constant_from-twice d (job ∷ jobs) n h = elim (Bool-cases (n == job.name)) [
    | inl here ↦ ground (
      arith,
      length-constant_from-lt (put d job.name v) jobs n,
      length-put d job.name v,
      get-put d job.name n v,
      ==_comm n job.name,
      elem-of_count n (names jobs),
    )
    | inr there ↦
        ground
          (arith, length-constant_from-twice (put d job.name v) jobs n, length-put d job.name v)
  ]

  length-constant_from :
      (d : Dict V) (jobs : List ScheduledCliJob)
      → ((n : String) → count n (names jobs) + (if is_some (get d n) then 1 else 0) ≤ 1)
      → length (constant_from v d jobs) ≡ length d + length jobs
  unfolding constant_from count
  length-constant_from d [] h = omega arith
  length-constant_from d (job ∷ jobs) h = ground (
    arith,
    length-constant_from (put d job.name v) jobs
        (λ n. ground (arith, h n, get-put d job.name n v, eq_iff n job.name, eq_iff job.name n)),
    h job.name,
    eq_iff job.name job.name,
    length-put d job.name v,
  )

module _ (jobs : List ScheduledCliJob) where
  length-indegrees_start : length (indegrees jobs) ≡ length (constant_from {V = ℕ} 0 [] jobs)
  unfolding indegrees
  length-indegrees_start =
      length-count_jobs (constant_from 0 [] jobs) jobs
        (λ n i. ground (arith, has-constant_from {V = ℕ} 0 [] jobs n))

  pub length-indegrees-le : length (indegrees jobs) ≤ length jobs
  length-indegrees-le =
      omega (arith, length-indegrees_start, length-constant_from-le {V = ℕ} 0 [] jobs)

  -- A name that stands twice leaves the table shorter than the list of jobs.
  pub length-indegrees-lt :
      (n : String) → 1 < count n (names jobs) → length (indegrees jobs) < length jobs
  length-indegrees-lt n h =
      omega (arith, length-indegrees_start, length-constant_from-twice {V = ℕ} 0 [] jobs n h)

  pub length-indegrees :
      ((n : String) → count n (names jobs) ≤ 1) → length (indegrees jobs) ≡ length jobs
  unfolding get
  length-indegrees h = omega (
    arith,
    length-indegrees_start,
    length-constant_from {V = ℕ} 0 [] jobs (λ n. omega (arith, h n)),
  )
