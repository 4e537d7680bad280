-- ===== src/Schedule/Run/Steps.antt =====
-- The rounds of `_run_schedule_plan` as steps: a job is skipped or it leaves a row, and the state
-- says so. The world is forgotten but for the exit code.
use elt_pipeline.Prelude.{
  String, Bool, true, false, ◌≡◌, ◌⊎◌, Option, none, some, List, [], ◌∷◌, ◌++◌, if◌then◌else◌,
  is_empty,
}
use elt_pipeline.Prelude.Int.{ℤ, pos, is_zero}
use elt_pipeline.Prelude.Names.{add}
use elt_pipeline.Schedule.Model.{ScheduledCliJob}
use elt_pipeline.Schedule.Rows.{
  RunState, JobResult, SkippedJob, Status, Skip, by_name, skipped_stop_on_error,
  skipped_upstream_failure, skipped_unmet_dependencies,
}
use elt_pipeline.Schedule.Rows.{success, failed, failed_sensor}
use elt_pipeline.Schedule.Run.{unmet_deps, failed_deps}

-- The status that goes with an exit code.
pub data Fits : Status → ℤ → Type 0 where
  fits_success : {code : ℤ} → is_zero code ≡ true → Fits success code
  fits_failed : {code : ℤ} → is_zero code ≡ false → Fits failed code
  fits_sensor : Fits failed_sensor (pos 5)

-- Why a round skips a job.
abbrev pub BecauseOf : Bool → Option String → List String → List String → Skip → Type 0
BecauseOf c stop fails unmet (skipped_stop_on_error name) = stop ≡ some name
BecauseOf c stop fails unmet (skipped_upstream_failure deps) =
    (deps ≡ fails) × (is_empty deps ≡ false) × (c ≡ false) × (stop ≡ none)
BecauseOf c stop fails unmet (skipped_unmet_dependencies deps) =
    (deps ≡ unmet) × (is_empty deps ≡ false) × (stop ≡ none)

abbrev pub Because : Bool → ScheduledCliJob → RunState → Skip → Type 0
Because c job s = BecauseOf c s.stop_after_this_job (failed_deps job s) (unmet_deps job s)

pub record IsSkip (continue_on_error : Bool) (job : ScheduledCliJob) (s t : RunState) : Type 0 where
  pub row : SkippedJob
  pub name : row.name ≡ job.name
  pub depends_on : row.depends_on ≡ job.depends_on
  pub because : Because continue_on_error job s row.reason
  pub skipped_jobs : t.skipped_jobs ≡ s.skipped_jobs ++ row ∷ []
  pub job_results : t.job_results ≡ s.job_results
  pub completed : t.completed ≡ s.completed
  pub failed : t.failed ≡ s.failed
  pub code : t.overall_exit_code ≡ s.overall_exit_code
  pub stop : t.stop_after_this_job ≡ s.stop_after_this_job

pub record IsRun (continue_on_error : Bool) (job : ScheduledCliJob) (s t : RunState) : Type 0 where
  pub row : JobResult
  pub name : row.name ≡ job.name
  pub depends_on : row.depends_on ≡ job.depends_on
  pub fits : Fits row.status row.exit_code
  pub going : s.stop_after_this_job ≡ none
  pub met : unmet_deps job s ≡ []
  pub job_results : t.job_results ≡ s.job_results ++ row ∷ []
  pub skipped_jobs : t.skipped_jobs ≡ s.skipped_jobs
  pub completed :
      t.completed ≡ (if is_zero row.exit_code then add job.name s.completed else s.completed)
  pub failed : t.failed ≡ (if is_zero row.exit_code then s.failed else add job.name s.failed)
  pub code :
      t.overall_exit_code
      ≡ (if is_zero s.overall_exit_code then row.exit_code else s.overall_exit_code)
  pub stop :
      t.stop_after_this_job
      ≡ (if is_zero row.exit_code then none else if continue_on_error then none else some job.name)

abbrev pub Step : Bool → ScheduledCliJob → RunState → RunState → Type 0
Step c job s t = IsSkip c job s t ⊎ IsRun c job s t

-- The rounds for the jobs of a list of names.
pub data Steps (c : Bool) (jobs : List ScheduledCliJob)
    : List String → RunState → RunState → Type 0 where
  done : {s : RunState} → Steps c jobs [] s s
  next :
      {name : String} {names : List String} {job : ScheduledCliJob} {s t u : RunState}
      → by_name jobs name ≡ some job
      → Step c job s t
      → Steps c jobs names t u
      → Steps c jobs (name ∷ names) s u
