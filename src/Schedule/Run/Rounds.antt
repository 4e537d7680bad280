-- ===== src/Schedule/Run/Rounds.antt =====
-- That the rounds of `_run_schedule_plan` are steps.
use elt_pipeline.Prelude.{
  ℕ, String, Bool, true, false, ◌≡◌, refl, inl, inr, Option, none, some, List, [], ◌∷◌, Attempt, ok,
  raise, arith, subst, >>=_returns,
}
use elt_pipeline.Schedule.Model.{WaitForSpec, ScheduledCliJob, PlanError}
use elt_pipeline.Schedule.World.{World}
use elt_pipeline.Schedule.Sensor.{Watch, Target, run_schedule_sensor_wait}
use elt_pipeline.Schedule.Rows.{RunState, Skip, by_name, position_by_name}
use elt_pipeline.Schedule.Run.{
  skip_reason, visit_job, run_jobs, unmet_deps, lookup_job, after_wait, start_job, skip_or_start,
}
use elt_pipeline.Schedule.Run.Steps.{Step, Steps, done, next}
use elt_pipeline.Schedule.Run.Outcomes.{
  skip_job-IsSkip, fail_sensor-IsRun, run_job-IsRun, first_reason-some, first_reason-none,
}

ok_eq : {s t : RunState} → Path (Attempt PlanError RunState) (ok s) (ok t) → s ≡ t
ok_eq h = cc

module _ (w : World) (c : Bool) where
  StepTo : ScheduledCliJob → RunState → Attempt PlanError RunState → Type 0
  StepTo job s (ok u) = Step c job s u
  StepTo job s (raise e) = Unit

  start_job-Step :
      (job : ScheduledCliJob) (position : ℕ) (s : RunState)
      → (s.stop_after_this_job ≡ none) × (unmet_deps job s ≡ [])
      → (wait : Option WaitForSpec) → StepTo job s (start_job w c job position s wait)
  unfolding StepTo
  start_job-Step job position s (going, met) none =
      inr (run_job-IsRun w c job position none s s.watch going met)
  start_job-Step job position s (going, met) (some spec) =
      by_wait (run_schedule_sensor_wait w job.name spec s.watch)
    where
      by_wait :
          (o : Attempt PlanError (Bool × Target × Watch))
          → StepTo job s (after_wait w c job position s o)
      by_wait (raise problem) = tt
      by_wait (ok (false, target, v)) =
          inr (fail_sensor-IsRun w c job position target s v going met)
      by_wait (ok (true, target, v)) =
          inr (run_job-IsRun w c job position (some (target, true)) s v going met)

  visit_job-Step :
      (job : ScheduledCliJob) (position : ℕ) (s t : RunState)
      → visit_job w c job position s ≡ ok t
      → Step c job s t
  unfolding visit_job StepTo
  visit_job-Step job position s t h =
      subst (StepTo job s) h (by_reason (skip_reason w c job s) refl)
    where
      by_reason :
          (o : Option Skip)
          → skip_reason w c job s ≡ o
          → StepTo job s (skip_or_start w c job position s o)
      by_reason (some reason) e =
          inl (skip_job-IsSkip w c job position reason s (first_reason-some w c _ _ _ reason e))
      by_reason none e = start_job-Step job position s (first_reason-none w c _ _ _ e) job.wait_for

  -- The run of the source is a sequence of rounds.
  pub run_jobs-Steps :
      (jobs : List ScheduledCliJob) (names : List String) (s t : RunState)
      → run_jobs w c jobs names s ≡ ok t
      → Steps c jobs names s t
  unfolding run_jobs
  run_jobs-Steps jobs [] s t h = subst (λ u. Steps c jobs [] s u) (ok_eq h) done
  run_jobs-Steps jobs (name ∷ names) s t h =
      let (job, found, rest) = >>=_returns (lookup_job w c jobs name) _ h in
      let (u, visited, later) =
        >>=_returns (visit_job w c job (position_by_name jobs 1 name) s) _ rest in
      next (lookup_some jobs name job found) (visit_job-Step job _ s u visited)
        (run_jobs-Steps jobs names u t later)
    where
      lookup_some :
          (jobs : List ScheduledCliJob) (name : String) (job : ScheduledCliJob)
          → lookup_job w c jobs name ≡ ok job
          → by_name jobs name ≡ some job
      lookup_some jobs name job e = ground arith
