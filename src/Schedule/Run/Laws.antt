-- ===== src/Schedule/Run/Laws.antt =====
-- What the rows of `_run_schedule_plan` say of the run, by induction on its rounds.
use elt_pipeline.Prelude.{
  ℕ, String, Bool, ◌≡◌, refl, sym, ap, inl, inr, ◌∙◌, Option, none, some, List, [], ◌∷◌, ◌++◌, ◌+◌,
  if◌then◌else◌, Bool-cases, is_some, arith, eq_iff, subst, ◌==◌,
}
use mathlib.Core.List.{append-nil, append_assoc}
use elt_pipeline.Prelude.Int.{ℤ, pos, is_zero}
use elt_pipeline.Prelude.Names.{count, count-append}
use elt_pipeline.Schedule.Model.{ScheduledCliJob}
use elt_pipeline.Schedule.Rows.{RunState, JobResult, SkippedJob, by_name}
use elt_pipeline.Schedule.Run.Steps.{Step, Steps, done, next}

abbrev pub row_names : List JobResult → List String
row_names [] = []
row_names (r ∷ rs) = r.name ∷ row_names rs

abbrev pub skip_names : List SkippedJob → List String
skip_names [] = []
skip_names (r ∷ rs) = r.name ∷ skip_names rs

row_names-append : (rs qs : List JobResult) → row_names (rs ++ qs) ≡ row_names rs ++ row_names qs
row_names-append [] qs = refl
row_names-append (r ∷ rs) qs = ap (◌∷◌ r.name) (row_names-append rs qs)

skip_names-append :
    (rs qs : List SkippedJob) → skip_names (rs ++ qs) ≡ skip_names rs ++ skip_names qs
skip_names-append [] qs = refl
skip_names-append (r ∷ rs) qs = ap (◌∷◌ r.name) (skip_names-append rs qs)

-- How often a name has left a row of either kind.
abbrev pub rows_of : String → RunState → ℕ
rows_of n s = count n (row_names s.job_results) + count n (skip_names s.skipped_jobs)

pub by_name-some :
    (jobs : List ScheduledCliJob) (name : String) (job : ScheduledCliJob)
    → by_name jobs name ≡ some job
    → job.name ≡ name
unfolding by_name
by_name-some [] name job h = cc
by_name-some (j ∷ jobs) name job h = elim (Bool-cases (is_some (by_name jobs name))) [
  | inl later ↦ by_name-some jobs name job (rw later at h)
  | inr not_later ↦ elim (Bool-cases (j.name == name)) [
    | inl here ↦
        subst (λ (o : Option ScheduledCliJob). Named o) (rw (not_later, here) at h)
          ((eq_iff j.name name).0 here)
    | inr other ↦ absurd (ground arith)
  ]
]
  where
    Named : Option ScheduledCliJob → Type 0
    Named none = Unit
    Named (some k) = k.name ≡ name

-- A fact that every round keeps, about the names visited so far and the state.
pub Steps-keep :
    (c : Bool) (jobs : List ScheduledCliJob) (P : List String → RunState → Type 0)
    → ((visited : List String) (job : ScheduledCliJob) (s t : RunState)
        → by_name jobs job.name ≡ some job
        → Step c job s t
        → P visited s
        → P (visited ++ job.name ∷ []) t)
    → (names visited : List String) (s t : RunState) → Steps c jobs names s t
    → P visited s
    → P (visited ++ names) t
Steps-keep c jobs P keep _ visited s _ done h = subst (λ v. P v s) (sym (append-nil visited)) h
Steps-keep c jobs P keep _ visited s u (next {name} {names} {job} {t = t} found step rest) h =
    let same = by_name-some jobs name job found in
    subst (λ v. P v u) (append_assoc visited (name ∷ []) names)
      (Steps-keep c jobs P keep names (visited ++ name ∷ []) t u rest (
        subst (λ n. P (visited ++ n ∷ []) t) same
          (keep visited job s t (subst (λ n. by_name jobs n ≡ some job) (sym same) found) step h)))

module _ (c : Bool) (jobs : List ScheduledCliJob) where
  Step-rows_of :
      (n : String) (job : ScheduledCliJob) (s t : RunState)
      → Step c job s t
      → rows_of n t ≡ rows_of n s + count n (job.name ∷ [])
  unfolding count
  Step-rows_of n job s t (inl skip) =
      rw
        (
          skip.job_results,
          skip.skipped_jobs,
          skip_names-append s.skipped_jobs (skip.row ∷ []),
          skip.name,
        )
        (omega (arith, count-append n (skip_names s.skipped_jobs) (job.name ∷ [])))
  Step-rows_of n job s t (inr run) =
      rw
        (run.job_results, run.skipped_jobs, row_names-append s.job_results (run.row ∷ []), run.name)
        (omega (arith, count-append n (row_names s.job_results) (job.name ∷ [])))

  -- Each name of the order leaves one row.
  pub Steps-rows_of :
      (n : String) (names : List String) (s t : RunState)
      → Steps c jobs names s t
      → rows_of n s ≡ 0
      → rows_of n t ≡ count n names
  unfolding count
  Steps-rows_of n names s t steps h =
      Steps-keep c jobs (λ visited u. rows_of n u ≡ count n visited)
        (λ visited job u v found step e.
          omega (arith, e, Step-rows_of n job u v step, count-append n visited (job.name ∷ [])))
        names [] s t steps h

-- The exit code of the first row that does not have 0, and otherwise 0.
abbrev pub first_failure : List JobResult → ℤ
first_failure [] = pos 0
first_failure (r ∷ rs) = if is_zero r.exit_code then first_failure rs else r.exit_code

first_failure-append :
    (rs : List JobResult) (r : JobResult)
    → first_failure (rs ++ r ∷ [])
      ≡ (if is_zero (first_failure rs) then first_failure (r ∷ []) else first_failure rs)
first_failure-append [] r = refl
first_failure-append (q ∷ rs) r = elim (Bool-cases (is_zero q.exit_code)) [
  | inl good ↦ rw good (first_failure-append rs r)
  | inr bad ↦ rw (bad, bad) refl
]

module _ (c : Bool) (jobs : List ScheduledCliJob) where
  Step-first_failure :
      (job : ScheduledCliJob) (s t : RunState)
      → Step c job s t
      → s.overall_exit_code ≡ first_failure s.job_results
      → t.overall_exit_code ≡ first_failure t.job_results
  Step-first_failure job s t (inl skip) h = skip.code ∙ h ∙ sym (ap first_failure skip.job_results)
  Step-first_failure job s t (inr run) h =
      run.code
      ∙ ap (λ o. if is_zero o then run.row.exit_code else o) h
      ∙ one_row (first_failure s.job_results)
      ∙ sym (first_failure-append s.job_results run.row)
      ∙ sym (ap first_failure run.job_results)
    where
      one_row :
          (o : ℤ)
          → (if is_zero o then run.row.exit_code else o)
            ≡ (if is_zero o then first_failure (run.row ∷ []) else o)
      one_row o = ground arith

  pub Steps-first_failure :
      (names : List String) (s t : RunState)
      → Steps c jobs names s t
      → s.overall_exit_code ≡ first_failure s.job_results
      → t.overall_exit_code ≡ first_failure t.job_results
  Steps-first_failure names s t steps h =
      Steps-keep c jobs (λ visited u. u.overall_exit_code ≡ first_failure u.job_results)
        (λ visited job u v found step e. Step-first_failure job u v step e) names [] s t steps h
