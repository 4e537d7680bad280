-- ===== src/Schedule/Rows.antt =====
-- The rows and the state of a run: the local variables of `_run_schedule_plan` in
-- src/elt_pipeline/_cli_main.py.
use elt_pipeline.Prelude.{
  ℕ, suc, String, Bool, Option, none, some, List, [], ◌∷◌, if◌then◌else◌, ◌==◌, is_some,
}
use elt_pipeline.Prelude.Int.{ℤ}
use elt_pipeline.Schedule.Model.{ScheduledCliJob}
use elt_pipeline.Schedule.World.{Exit}
use elt_pipeline.Schedule.Sensor.{Watch, Target}

-- `{job.name: job for job in jobs}`: the last job of a name counts.
unfoldable pub by_name : List ScheduledCliJob → String → Option ScheduledCliJob
by_name [] name = none
by_name (job ∷ jobs) name =
    let later = by_name jobs name in
    if is_some later then later else if job.name == name then some job else none

-- `position_by_name`, from the position of the first job on.
unfoldable pub position_by_name : List ScheduledCliJob → ℕ → String → ℕ
position_by_name [] i name = 0
position_by_name (job ∷ jobs) i name =
    let later = position_by_name jobs (suc i) name in
    if is_some (by_name jobs name) then later else if job.name == name then i else 0

pub data Status : Type 0 where
  success failed failed_sensor : Status

-- The `status` of a skipped job, with what it says beside.
pub data Skip : Type 0 where
  skipped_stop_on_error : String → Skip
  skipped_upstream_failure : List String → Skip
  skipped_unmet_dependencies : List String → Skip

pub record SkippedJob : Type 0 where
  pub name : String
  pub position : ℕ
  pub argv : List String
  pub reason : Skip
  pub depends_on : List String

pub record AttemptRow : Type 0 where
  pub attempt : ℕ
  pub exit : Exit

pub record JobResult : Type 0 where
  pub name : String
  pub position : ℕ
  pub argv : List String
  pub status : Status
  pub exit_code : ℤ
  pub attempts : List AttemptRow
  pub retries_requested : ℕ
  pub retry_delay_seconds : ℕ
  pub depends_on : List String
  pub elapsed : ℕ
  pub sla_breached : Bool
  pub wait_for : Option (Target × Bool)

pub record SlaAlert : Type 0 where
  pub job_name : String
  pub elapsed_seconds : ℕ
  pub sla_seconds : ℕ

-- The local variables of the loop over the jobs.
pub record RunState : Type 0 where
  pub completed : List String
  pub failed : List String
  pub job_results : List JobResult
  pub skipped_jobs : List SkippedJob
  pub overall_exit_code : ℤ
  pub stop_after_this_job : Option String
  pub watch : Watch
  pub sla_alerts : List SlaAlert
