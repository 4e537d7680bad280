-- ===== src/Schedule/Run/Examples.antt =====
-- Runs of small plans in a sample world, and the theorems of the runner at them.
use elt_pipeline.Prelude.{
  String, Bool, ◌≡◌, refl, false, true, none, some, Option, List, [], ◌∷◌, ok, raise, arith, All,
  if◌then◌else◌, length, ltb, Attempt, ◌+◌, ◌*◌, ◌<◌, ◌⊎◌,
}
use elt_pipeline.Prelude.Int.{ℤ, pos}
use elt_pipeline.Prelude.Names.{elem, add, sorted}
use elt_pipeline.Prelude.Dict.{get, put, get_or}
use elt_pipeline.Schedule.Model.{
  WaitForSpec, ScheduledCliJob, SchedulePlan, names, bit, PlanError, overflow_error,
}
use elt_pipeline.Schedule.Order.{topological_sort_schedule_jobs, by_index}
use elt_pipeline.Schedule.Plan.{validate_dependencies}
use elt_pipeline.Schedule.World.{World, Clock}
use elt_pipeline.Schedule.Sensor.{Watch, run_schedule_sensor_wait, target_of, http_backoff}
use elt_pipeline.Schedule.Sensor.Ends.{IsHttp}
use elt_pipeline.Schedule.Sensor.Logs.{IsWait}
use elt_pipeline.Schedule.Sensor.Events.{run_schedule_sensor_wait-IsWait}
use elt_pipeline.Schedule.Run.{RunSummary, initial, summary_of, run_schedule_plan, job_attempts}
use elt_pipeline.Schedule.Run.Laws.{rows_of, first_failure}
use elt_pipeline.Schedule.Run.Safety.{
  IsBehind, IsUntilFailure, NotUpstream, IsGood, completed_after,
}
use elt_pipeline.Schedule.Run.Retries.{IsRetried, job_attempts-IsRetried}
use elt_pipeline.Schedule.Run.Correct.{
  run_schedule_plan_exit_code, run_schedule_plan_dependencies, run_schedule_plan_stops,
  run_schedule_plan_no_upstream_skip, run_schedule_plan_covers, run_schedule_plan_success,
}
use elt_pipeline.Schedule.Run.Returns.{Polls, run_schedule_plan_returns}

-- Every action takes 5; a file appears after the third action, and a job with "bad" among its
-- arguments ends with 3.
abbrev world : World
world = record {
  delay = λ k. 5;
  path_exists = λ path k. if ltb 2 k then some true else some false;
  path_glob = λ base pat k. none;
  http_status = λ url k. some (pos 503);
  uniform = λ k top. top;
  invoke = λ argv k. record {
    exit_code = if elem "bad" argv then pos 3 else pos 0;
    stdout_text = "";
    stderr_text = "";
  };
}

abbrev start : Clock
start = record { actions = 0; now = 0 }

abbrev task : String → List String → List String → Option WaitForSpec → ScheduledCliJob
task name argv deps wait = record {
  name = name;
  argv = argv;
  retries = 1;
  retry_delay_seconds = 10;
  depends_on = deps;
  wait_for = wait;
  sla_seconds = some 3;
}

abbrev spec : WaitForSpec
spec = record {
  path_exists = some "/landing/_SUCCESS";
  path_glob = none;
  http_url = none;
  poll_sec = 20;
  timeout_sec = 100;
}

abbrev good : SchedulePlan
good = record {
  jobs =
      task "load" ("load" ∷ []) ("extract" ∷ []) none
      ∷ task "extract" ("extract" ∷ []) [] (some spec)
      ∷ [];
  continue_on_error = false;
}

abbrev bad : SchedulePlan
bad = record {
  jobs =
      task "load" ("load" ∷ []) ("extract" ∷ []) none
      ∷ task "extract" ("bad" ∷ []) [] none
      ∷ task "other" ("other" ∷ []) [] none
      ∷ [];
  continue_on_error = false;
}

program : Unit {0}
unfolding validate_dependencies topological_sort_schedule_jobs elem get put get_or by_index sorted
    add run_schedule_plan run_schedule_sensor_wait job_attempts
program = tt

good_accepted : validate_dependencies good ≡ ok good
unfolding program
good_accepted = refl

bad_accepted : validate_dependencies bad ≡ ok bad
unfolding program
bad_accepted = refl

-- The payload of a run that returns; the other case is not used.
abbrev payload : Attempt PlanError (RunSummary × ℤ) → RunSummary
payload (raise problem) = summary_of [] [] (initial start)
payload (ok (summary, code)) = summary

abbrev good_summary : RunSummary
good_summary = payload (run_schedule_plan world false good start)

abbrev bad_summary : RunSummary
bad_summary = payload (run_schedule_plan world false bad start)

good_run : run_schedule_plan world false good start ≡ ok (good_summary, pos 0)
unfolding program
good_run = refl

bad_run : run_schedule_plan world false bad start ≡ ok (bad_summary, pos 3)
unfolding program
bad_run = refl

bad_counts :
    (bad_summary.executed_count ≡ 1)
    × (bad_summary.skipped_count ≡ 2)
    × (bad_summary.failed_count ≡ 1)
    × (length bad_summary.state.sla_alerts ≡ 1)
unfolding program
bad_counts = (refl, refl, refl, refl)

run_schedule_plan_exit_code_example :
    (pos 3 ≡ first_failure bad_summary.state.job_results) × (bad_summary.is_success ≡ false)
run_schedule_plan_exit_code_example =
    run_schedule_plan_exit_code world false bad start bad_summary (pos 3) bad_run

run_schedule_plan_dependencies_example : IsBehind [] good_summary.state.job_results
run_schedule_plan_dependencies_example =
    run_schedule_plan_dependencies world false good start good_summary (pos 0) good_run

run_schedule_plan_stops_example : IsUntilFailure bad_summary.state.job_results
run_schedule_plan_stops_example =
    run_schedule_plan_stops world bad start bad_summary (pos 3) bad_run

run_schedule_plan_no_upstream_skip_example : All NotUpstream bad_summary.state.skipped_jobs
run_schedule_plan_no_upstream_skip_example =
    run_schedule_plan_no_upstream_skip world false bad start bad_summary (pos 3) bad_run

run_schedule_plan_covers_example :
    rows_of "other" bad_summary.state ≡ bit (elem "other" (names bad.jobs))
run_schedule_plan_covers_example =
    run_schedule_plan_covers world false bad bad start bad_summary (pos 3) bad_accepted bad_run
      "other"

run_schedule_plan_success_example :
    (good_summary.state.skipped_jobs ≡ [])
    × All IsGood good_summary.state.job_results
    × ((n : String)
        → elem n (names good.jobs) ≡ true
        → elem n (completed_after [] good_summary.state.job_results) ≡ true)
run_schedule_plan_success_example =
    run_schedule_plan_success world false good good start good_summary (pos 0) good_accepted
      good_run refl

good-Polls : All (Polls world) good.jobs
good-Polls = (λ s e. cc, (λ s e. (ground (arith, e), λ http. ground (arith, e)), tt))

run_schedule_plan_returns_example :
    (summary : RunSummary) × ((code : ℤ) × (run_schedule_plan world false good start
        ≡ ok (summary, code)))
run_schedule_plan_returns_example =
    run_schedule_plan_returns world false good good start good_accepted good-Polls

job_attempts-IsRetried_example :
    IsRetried (1 + 1) (job_attempts world (task "extract" ("bad" ∷ []) [] none) start)
job_attempts-IsRetried_example =
    job_attempts-IsRetried world (task "extract" ("bad" ∷ []) [] none) start

abbrev watch : Watch
watch = record { clock = start; sensor_events = []; poll_gauge = [] }

run_schedule_sensor_wait-IsWait_example :
    ((met : Bool) × (t : Watch) × (run_schedule_sensor_wait world "extract" spec watch
        ≡ ok (met, target_of world spec, t))
      × IsWait spec.timeout_sec met watch t)
    ⊎ ((run_schedule_sensor_wait world "extract" spec watch ≡ raise overflow_error)
        × IsHttp (target_of world spec)
        × (1023 * spec.poll_sec < spec.timeout_sec))
run_schedule_sensor_wait-IsWait_example =
    run_schedule_sensor_wait-IsWait world "extract" spec watch (λ e. cc) (omega arith)

-- The 1025th HTTP poll has no sleep.
backoff_overflows : http_backoff world 10 500000 10000 1025 0 ≡ raise overflow_error
unfolding http_backoff
backoff_overflows = refl
