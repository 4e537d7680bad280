-- ===== src/Schedule/Run.antt =====
-- `_run_schedule_plan` and `_invoke_cli_job` of src/elt_pipeline/_cli_main.py. The payload keeps the
-- texts of the processes as they are; wall clock fields and log lines are left out.
pub mod Steps
pub mod Outcomes
pub mod Rounds
pub mod Laws
pub mod Safety
pub mod Retries
pub mod Success
pub mod Correct
pub mod Returns
mod Examples
use elt_pipeline.Schedule.Rows.{
  success, failed_sensor, failed, by_name, position_by_name, Status, Skip, SkippedJob, AttemptRow,
  JobResult, SlaAlert, RunState, skipped_stop_on_error, skipped_upstream_failure,
  skipped_unmet_dependencies,
}
use elt_pipeline.Prelude.{
  ℕ, zero, suc, String, Bool, true, false, not, Option, none, some, List, [], ◌∷◌, ◌++◌, ◌+◌, ◌-◌,
  ltb, ◌&&◌, if◌then◌else◌, Attempt, ok, raise, ◌>>=◌, filter, is_empty, length, ◌==◌, is_some,
}
use elt_pipeline.Prelude.Int.{ℤ, pos, is_zero}
use elt_pipeline.Prelude.Names.{elem, add}
use elt_pipeline.Prelude.Dict.{Dict, get, put, or_else}
use elt_pipeline.Schedule.Model.{
  WaitForSpec, ScheduledCliJob, SchedulePlan, PlanError, key_error, out_of_fuel,
}
use elt_pipeline.Schedule.Order.{topological_sort_schedule_jobs}
use elt_pipeline.Schedule.World.{World, Clock, Exit, pass}
use elt_pipeline.Schedule.Sensor.{Watch, Target, run_schedule_sensor_wait}

-- What the loop over the attempts leaves.
pub record Attempts : Type 0 where
  pub rows : List AttemptRow
  pub final : Exit
  pub clock : Clock

-- `for attempt in range(1, max_attempts + 1)`, with the attempts that are left.
unfoldable pub run_attempts : World → List String → ℕ → ℕ → ℕ → Exit → Clock → Attempts
run_attempts w argv delay zero attempt last c = record { rows = []; final = last; clock = c }
run_attempts w argv delay (suc left) attempt last c =
    let rested = if ltb 1 attempt && ltb 0 delay then pass w delay c else c in
    let exit = w.invoke argv rested.actions in
    let ran = pass w 0 rested in
    let row : AttemptRow = record { attempt = attempt; exit = exit } in
    let rest = run_attempts w argv delay left (suc attempt) exit ran in
    if is_zero exit.exit_code
    then record { rows = row ∷ []; final = exit; clock = ran }
    else record rest { rows = row ∷ rest.rows }

-- `final_exit_code` and the texts before the first attempt.
abbrev pub no_exit : Exit
no_exit = record { exit_code = pos 1; stdout_text = ""; stderr_text = "" }

unfoldable pub job_attempts : World → ScheduledCliJob → Clock → Attempts
unfolding run_attempts
job_attempts w job c = run_attempts w job.argv job.retry_delay_seconds (1 + job.retries) 1 no_exit c

-- `[dep for dep in job.depends_on if dep not in completed]`
unfoldable pub unmet_deps : ScheduledCliJob → RunState → List String
unmet_deps job s = filter (λ dep. not (elem dep s.completed)) job.depends_on

-- `[dep for dep in job.depends_on if dep in failed]`
unfoldable pub failed_deps : ScheduledCliJob → RunState → List String
failed_deps job s = filter (λ dep. elem dep s.failed) job.depends_on

module _ (w : World) (continue_on_error : Bool) where
  -- The three tests that skip a job, in their order.
  abbrev pub first_reason : Option String → List String → List String → Option Skip
  first_reason (some stopped) failed_names unmet = some (skipped_stop_on_error stopped)
  first_reason none failed_names unmet =
      if not (is_empty failed_names) && not continue_on_error
      then some (skipped_upstream_failure failed_names)
      else if not (is_empty unmet)
      then some (skipped_unmet_dependencies unmet)
      else none

  unfoldable pub skip_reason : ScheduledCliJob → RunState → Option Skip
  unfolding unmet_deps failed_deps
  skip_reason job s = first_reason s.stop_after_this_job (failed_deps job s) (unmet_deps job s)

  unfoldable pub skip_job : ScheduledCliJob → ℕ → Skip → RunState → RunState
  skip_job job position reason s = record s {
    skipped_jobs =
        s.skipped_jobs
        ++ record {
          name = job.name;
          position = position;
          argv = job.argv;
          reason = reason;
          depends_on = job.depends_on;
        }
          ∷ [];
  }

  -- A job failed with an exit code: the first such code is kept, and the run may stop.
  unfoldable pub mark_failed : ScheduledCliJob → ℤ → RunState → RunState
  mark_failed job code s = record s {
    failed = add job.name s.failed;
    overall_exit_code = if is_zero s.overall_exit_code then code else s.overall_exit_code;
    stop_after_this_job = if continue_on_error then s.stop_after_this_job else some job.name;
  }

  unfoldable pub mark_completed : ScheduledCliJob → RunState → RunState
  mark_completed job s = record s { completed = add job.name s.completed }

  unfoldable pub mark : ScheduledCliJob → ℤ → RunState → RunState
  unfolding mark_failed mark_completed
  mark job code s = if is_zero code then mark_completed job s else mark_failed job code s

  unfoldable pub add_result : JobResult → RunState → RunState
  add_result row s = record s { job_results = s.job_results ++ row ∷ [] }

  -- The sensor of the job ended at its deadline: exit code 5, and no attempt.
  unfoldable pub fail_sensor : ScheduledCliJob → ℕ → Target → RunState → RunState
  unfolding mark_failed add_result
  fail_sensor job position target s =
      add_result
        (record {
          name = job.name;
          position = position;
          argv = job.argv;
          status = failed_sensor;
          exit_code = pos 5;
          attempts = [];
          retries_requested = job.retries;
          retry_delay_seconds = job.retry_delay_seconds;
          depends_on = job.depends_on;
          elapsed = 0;
          sla_breached = false;
          wait_for = some (target, false);
        })
        (mark_failed job (pos 5) s)

  abbrev pub is_breached : Option ℕ → ℕ → Bool
  is_breached none elapsed = false
  is_breached (some sla) elapsed = ltb sla elapsed

  -- The alert of a job that took longer than `sla_seconds`.
  unfoldable pub check_sla : ScheduledCliJob → ℕ → RunState → RunState
  check_sla job elapsed s = elim job.sla_seconds [
    | none ↦ s
    | some sla ↦
        if ltb sla elapsed
        then record s {
          sla_alerts =
              s.sla_alerts
              ++ record { job_name = job.name; elapsed_seconds = elapsed; sla_seconds = sla } ∷ [];
        }
        else s
  ]

  -- From the attempts to the row of the job.
  unfoldable pub run_job : ScheduledCliJob → ℕ → Option (Target × Bool) → RunState → RunState
  unfolding job_attempts check_sla mark add_result
  run_job job position waited s =
      let tried = job_attempts w job s.watch.clock in
      let elapsed = tried.clock.now - s.watch.clock.now in
      let timed : RunState =
        check_sla job elapsed (record s { watch = record s.watch { clock = tried.clock } }) in
      let code = tried.final.exit_code in
      add_result
        (record {
          name = job.name;
          position = position;
          argv = job.argv;
          status = if is_zero code then success else failed;
          exit_code = code;
          attempts = tried.rows;
          retries_requested = job.retries;
          retry_delay_seconds = job.retry_delay_seconds;
          depends_on = job.depends_on;
          elapsed = elapsed;
          sla_breached = is_breached job.sla_seconds elapsed;
          wait_for = waited;
        })
        (mark job code timed)

  abbrev pub after_wait :
      ScheduledCliJob
      → ℕ
      → RunState
      → Attempt PlanError (Bool × Target × Watch)
      → Attempt PlanError RunState
  after_wait job position s (raise problem) = raise problem
  after_wait job position s (ok (false, target, t)) =
      ok (fail_sensor job position target (record s { watch = t }))
  after_wait job position s (ok (true, target, t)) =
      ok (run_job job position (some (target, true)) (record s { watch = t }))

  abbrev pub start_job :
      ScheduledCliJob → ℕ → RunState → Option WaitForSpec → Attempt PlanError RunState
  start_job job position s none = ok (run_job job position none s)
  start_job job position s (some spec) =
      after_wait job position s (run_schedule_sensor_wait w job.name spec s.watch)

  abbrev pub skip_or_start :
      ScheduledCliJob → ℕ → RunState → Option Skip → Attempt PlanError RunState
  skip_or_start job position s (some reason) = ok (skip_job job position reason s)
  skip_or_start job position s none = start_job job position s job.wait_for

  -- One round of the loop.
  unfoldable pub visit_job : ScheduledCliJob → ℕ → RunState → Attempt PlanError RunState
  unfolding skip_reason skip_job fail_sensor run_job
  visit_job job position s = skip_or_start job position s (skip_reason job s)

  abbrev pub lookup_job : List ScheduledCliJob → String → Attempt PlanError ScheduledCliJob
  lookup_job jobs name = elim (by_name jobs name) [
    | some job ↦ ok job
    | none ↦ raise (key_error name)
  ]

  unfoldable pub run_jobs :
      List ScheduledCliJob → List String → RunState → Attempt PlanError RunState
  unfolding visit_job by_name position_by_name
  run_jobs jobs [] s = ok s
  run_jobs jobs (name ∷ ordered_names) s = do
    job ← lookup_job jobs name
    t ← visit_job job (position_by_name jobs 1 name) s
    run_jobs jobs ordered_names t

-- The state before the loop.
unfoldable pub initial : Clock → RunState
initial c = record {
  completed = [];
  failed = [];
  job_results = [];
  skipped_jobs = [];
  overall_exit_code = pos 0;
  stop_after_this_job = none;
  watch = record { clock = c; sensor_events = []; poll_gauge = [] };
  sla_alerts = [];
}

-- The payload of `schedule.run`: the counts beside the state that they are taken from.
pub record RunSummary : Type 0 where
  pub execution_order : List String
  pub job_count : ℕ
  pub executed_count : ℕ
  pub skipped_count : ℕ
  pub success_count : ℕ
  pub failed_count : ℕ
  pub is_success : Bool
  pub state : RunState

abbrev pub is_success_row : JobResult → Bool
is_success_row row = elim row.status [ success ↦ true | _ ↦ false ]

abbrev pub is_failed_row : JobResult → Bool
is_failed_row row = elim row.status [ success ↦ false | _ ↦ true ]

unfoldable pub summary_of : List ScheduledCliJob → List String → RunState → RunSummary
summary_of jobs order s = record {
  execution_order = order;
  job_count = length jobs;
  executed_count = length s.job_results;
  skipped_count = length s.skipped_jobs;
  success_count = length (filter is_success_row s.job_results);
  failed_count = length (filter is_failed_row s.job_results);
  is_success = is_zero s.overall_exit_code;
  state = s;
}

-- `_run_schedule_plan`
unfoldable pub run_schedule_plan :
    World → Bool → SchedulePlan → Clock → Attempt PlanError (RunSummary × ℤ)
unfolding run_jobs initial summary_of
run_schedule_plan w continue_on_error plan c = do
  ordered_names ← topological_sort_schedule_jobs plan.jobs
  s ← run_jobs w continue_on_error plan.jobs ordered_names (initial c)
  ok (summary_of plan.jobs ordered_names s, s.overall_exit_code)
