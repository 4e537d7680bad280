-- ===== src/Schedule/Run/Correct.antt =====
-- The theorems of `_run_schedule_plan`, from those of its rounds and of the order.
use elt_pipeline.Prelude.{
  String, Bool, true, false, ◌≡◌, refl, sym, ap, ◌∙◌, List, [], arith, subst, All, Attempt, ok,
  >>=_returns,
}
use elt_pipeline.Prelude.Int.{ℤ, is_zero}
use elt_pipeline.Prelude.Names.{elem, count, elem-of_count}
use elt_pipeline.Schedule.Model.{SchedulePlan, PlanError, names, bit}
use elt_pipeline.Schedule.Order.{topological_sort_schedule_jobs}
use elt_pipeline.Schedule.Plan.{validate_dependencies}
use elt_pipeline.Schedule.Plan.Accepts.{IsSchedule, validate_dependencies_sound}
use elt_pipeline.Schedule.World.{World, Clock}
use elt_pipeline.Schedule.Rows.{RunState}
use elt_pipeline.Schedule.Run.{RunSummary, initial, run_jobs, run_schedule_plan, summary_of}
use elt_pipeline.Schedule.Run.Steps.{Steps}
use elt_pipeline.Schedule.Run.Rounds.{run_jobs-Steps}
use elt_pipeline.Schedule.Run.Laws.{rows_of, first_failure, Steps-rows_of, Steps-first_failure}
use elt_pipeline.Schedule.Run.Safety.{
  IsBehind, completed_after, IsUntilFailure, NotUpstream, IsGood, Steps-IsBehind, Steps-IsStrict,
}
use elt_pipeline.Schedule.Run.Success.{Steps-IsClean}

abbrev RunOf :
    World → Bool → SchedulePlan → Clock → RunSummary → ℤ → List String → RunState → Type 0
RunOf w c plan clock summary code order t =
    (topological_sort_schedule_jobs plan.jobs ≡ ok order)
    × Steps c plan.jobs order (initial clock) t
    × (summary ≡ summary_of plan.jobs order t)
    × (code ≡ t.overall_exit_code)

-- A run that returns is a sequence of rounds for the names in the order of the sort.
run_parts :
    (w : World) (c : Bool) (plan : SchedulePlan) (clock : Clock) (summary : RunSummary) (code : ℤ)
    → run_schedule_plan w c plan clock ≡ ok (summary, code)
    → (order : List String) × ((t : RunState) × RunOf w c plan clock summary code order t)
unfolding run_schedule_plan
run_parts w c plan clock summary code h =
    let (order, sorts, rest) = >>=_returns (topological_sort_schedule_jobs plan.jobs) _ h in
    let (t, ran, ends) = >>=_returns (run_jobs w c plan.jobs order (initial clock)) _ rest in
    (
      order,
      (
        t,
        (
          sorts,
          run_jobs-Steps w c plan.jobs order (initial clock) t ran,
          ground arith,
          ground arith,
        ),
      ),
    )

-- The exit code of a run is that of the first job that ran and failed, and 0 if there is none; and
-- `success` says that it is 0.
pub run_schedule_plan_exit_code :
    (w : World) (c : Bool) (plan : SchedulePlan) (clock : Clock) (summary : RunSummary) (code : ℤ)
    → run_schedule_plan w c plan clock ≡ ok (summary, code)
    → (code ≡ first_failure summary.state.job_results) × (summary.is_success ≡ is_zero code)
unfolding summary_of initial
run_schedule_plan_exit_code w c plan clock summary code h =
    let (order, (t, (sorts, steps, same, e))) = run_parts w c plan clock summary code h in
    rw (same, e) (Steps-first_failure c plan.jobs order (initial clock) t steps refl, refl)

-- In every run, each job that ran had all of its dependencies among the jobs that had succeeded
-- before it.
pub run_schedule_plan_dependencies :
    (w : World) (c : Bool) (plan : SchedulePlan) (clock : Clock) (summary : RunSummary) (code : ℤ)
    → run_schedule_plan w c plan clock ≡ ok (summary, code)
    → IsBehind [] summary.state.job_results
unfolding summary_of initial
run_schedule_plan_dependencies w c plan clock summary code h =
    let (order, (t, (sorts, steps, same, e))) = run_parts w c plan clock summary code h in
    rw same (Steps-IsBehind c plan.jobs order (initial clock) t steps refl refl).1

-- Without `continue_on_error`, no job runs after the first that failed: all rows but the last have
-- exit code 0.
pub run_schedule_plan_stops :
    (w : World) (plan : SchedulePlan) (clock : Clock) (summary : RunSummary) (code : ℤ)
    → run_schedule_plan w false plan clock ≡ ok (summary, code)
    → IsUntilFailure summary.state.job_results
unfolding summary_of initial
run_schedule_plan_stops w plan clock summary code h =
    let (order, (t, (sorts, steps, same, e))) = run_parts w false plan clock summary code h in
    rw same ((Steps-IsStrict false plan.jobs order (initial clock) t steps refl refl refl).0 refl)

-- No run skips a job with the status `skipped_upstream_failure`.
pub run_schedule_plan_no_upstream_skip :
    (w : World) (c : Bool) (plan : SchedulePlan) (clock : Clock) (summary : RunSummary) (code : ℤ)
    → run_schedule_plan w c plan clock ≡ ok (summary, code)
    → All NotUpstream summary.state.skipped_jobs
unfolding summary_of initial
run_schedule_plan_no_upstream_skip w c plan clock summary code h =
    let (order, (t, (sorts, steps, same, e))) = run_parts w c plan clock summary code h in
    rw same (Steps-IsStrict c plan.jobs order (initial clock) t steps refl refl refl).1

accepted_order :
    (plan p : SchedulePlan) (order : List String)
    → validate_dependencies plan ≡ ok p
    → topological_sort_schedule_jobs plan.jobs ≡ ok order
    → IsSchedule plan.jobs order
accepted_order plan p order accepted sorts =
    let (same, known, irreflexive, distinct, (other, sorts', schedule)) =
      validate_dependencies_sound plan p accepted in
    subst (IsSchedule plan.jobs) (ok_order (sym sorts' ∙ sorts)) schedule
  where
    ok_order : {a b : List String} → Path (Attempt PlanError (List String)) (ok a) (ok b) → a ≡ b
    ok_order e = cc

-- A run of an accepted plan leaves exactly one row, of a job that ran or of one that was skipped,
-- for each job of the plan, and none for another name.
pub run_schedule_plan_covers :
    (w : World) (c : Bool) (plan p : SchedulePlan) (clock : Clock) (summary : RunSummary) (code : ℤ)
    → validate_dependencies plan ≡ ok p
    → run_schedule_plan w c plan clock ≡ ok (summary, code)
    → (n : String) → rows_of n summary.state ≡ bit (elem n (names plan.jobs))
unfolding summary_of initial count
run_schedule_plan_covers w c plan p clock summary code accepted h n =
    let (order, (t, (sorts, steps, same, e))) = run_parts w c plan clock summary code h in
    rw same (
      Steps-rows_of c plan.jobs n order (initial clock) t steps (omega arith)
      ∙ (accepted_order plan p order accepted sorts).once n)

-- A run of an accepted plan that ends with exit code 0 skipped no job, and every job of the plan ran
-- and ended with exit code 0.
pub run_schedule_plan_success :
    (w : World) (c : Bool) (plan p : SchedulePlan) (clock : Clock) (summary : RunSummary) (code : ℤ)
    → validate_dependencies plan ≡ ok p
    → run_schedule_plan w c plan clock ≡ ok (summary, code)
    → is_zero code ≡ true
    → (summary.state.skipped_jobs ≡ [])
      × All IsGood summary.state.job_results
      × ((n : String)
          → elem n (names plan.jobs) ≡ true
          → elem n (completed_after [] summary.state.job_results) ≡ true)
unfolding summary_of initial elem
run_schedule_plan_success w c plan p clock summary code accepted h zero =
    let (order, (t, (sorts, steps, same, e))) = run_parts w c plan clock summary code h in
    let schedule = accepted_order plan p order accepted sorts in
    let clean =
      Steps-IsClean c plan.jobs order [] order (initial clock) t schedule.first refl steps
        (λ z. record {
          none_skipped = refl;
          none_failed = refl;
          going = refl;
          good = tt;
          completed = λ n i. ground arith;
        })
        (ap is_zero (sym e) ∙ zero) in
    rw same (
      clean.none_skipped,
      clean.good,
      λ n i.
          ap (elem n) (sym (Steps-IsBehind c plan.jobs order (initial clock) t steps refl refl).0)
          ∙ clean.completed n (elem-of_count n order (omega (arith, schedule.once n, ap bit i))),
    )
