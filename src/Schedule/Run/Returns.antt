-- ===== src/Schedule/Run/Returns.antt =====
-- That `_run_schedule_plan` returns.
use elt_pipeline.Prelude.{
  ℕ, String, Bool, true, false, ◌≡◌, ◌≢◌, refl, inl, inr, Option, none, some, List, [], ◌∷◌, ◌<◌,
  ◌≤◌, ◌*◌, Bool-cases, arith, ◌⊎◌, eq_iff, All, Attempt, ok, ◌==◌, eq_refl,
}
use elt_pipeline.Prelude.Int.{ℤ}
use elt_pipeline.Prelude.Names.{elem, count-of_elem}
use elt_pipeline.Schedule.Model.{WaitForSpec, ScheduledCliJob, SchedulePlan, PlanError, names, bit}
use elt_pipeline.Schedule.Plan.{validate_dependencies}
use elt_pipeline.Schedule.Plan.Accepts.{validate_dependencies_sound}
use elt_pipeline.Schedule.World.{World, Clock}
use elt_pipeline.Schedule.Sensor.{
  Watch, Target, run_schedule_sensor_wait, target_of, http_url, path_exists, path_glob, unknown,
}
use elt_pipeline.Schedule.Sensor.Ends.{IsHttp}
use elt_pipeline.Schedule.Sensor.Events.{run_schedule_sensor_wait-IsWait}
use elt_pipeline.Schedule.Rows.{RunState, by_name, Skip, position_by_name}
use elt_pipeline.Schedule.Run.{
  RunSummary, initial, run_jobs, run_schedule_plan, summary_of, visit_job, skip_reason,
  skip_or_start, start_job, after_wait, lookup_job,
}

-- The sensor of a job, if it has one, polls at intervals, and one that asks for HTTP waits for at
-- most 1023 of them.
abbrev pub Polls : World → ScheduledCliJob → Type 0
Polls w job =
    (spec : WaitForSpec)
    → job.wait_for ≡ some spec
    → (0 < spec.poll_sec) × (IsHttp (target_of w spec) → spec.timeout_sec ≤ 1023 * spec.poll_sec)

by_name_finds :
    (w : World) (jobs : List ScheduledCliJob) (n : String)
    → All (Polls w) jobs
    → ((by_name jobs n ≡ none) × (elem n (names jobs) ≡ false))
      ⊎ ((job : ScheduledCliJob) × (by_name jobs n ≡ some job) × Polls w job)
unfolding by_name elem
by_name_finds w [] n h = inl (refl, refl)
by_name_finds w (j ∷ jobs) n h = elim (by_name_finds w jobs n h.1) [
  | inr (k, found, polls) ↦ inr (k, rw found refl, polls)
  | inl (absent, unlisted) ↦ elim (Bool-cases (j.name == n)) [
    | inl here ↦ inr (j, rw (absent, here) refl, h.0)
    | inr other ↦ inl (rw (absent, other) refl, ground (arith, eq_iff n j.name, eq_iff j.name n))
  ]
]

module _ (w : World) (c : Bool) where
  abbrev Gives : Attempt PlanError RunState → Type 0
  Gives a = (t : RunState) × (a ≡ ok t)

  start_job_returns :
      (job : ScheduledCliJob) (position : ℕ) (s : RunState) (wait : Option WaitForSpec)
      → ((spec : WaitForSpec)
          → wait ≡ some spec
          → (0 < spec.poll_sec)
            × (IsHttp (target_of w spec) → spec.timeout_sec ≤ 1023 * spec.poll_sec))
      → Gives (start_job w c job position s wait)
  unfolding run_schedule_sensor_wait
  start_job_returns job position s none polls = (_, refl)
  start_job_returns job position s (some spec) polls = by_target (target_of w spec) refl
    where
      by_wait :
          (met : Bool) (target : Target) (v : Watch)
          → Gives (after_wait w c job position s (ok (met, target, v)))
      by_wait false target v = (_, refl)
      by_wait true target v = (_, refl)

      set : target_of w spec ≢ unknown → Gives (start_job w c job position s (some spec))
      set known =
          let (positive, short) = polls spec refl in
          elim (run_schedule_sensor_wait-IsWait w job.name spec s.watch known positive) [
            | inl (met, v, waits, logged) ↦ rw waits (by_wait met (target_of w spec) v)
            | inr (fails, http, long) ↦ absurd (omega (arith, short http))
          ]

      by_target :
          (u : Target) → target_of w spec ≡ u → Gives (start_job w c job position s (some spec))
      by_target unknown e = rw e (_, refl)
      by_target (http_url url) e = set (λ u. cc)
      by_target (path_exists path) e = set (λ u. cc)
      by_target (path_glob base pat) e = set (λ u. cc)

  visit_job_returns :
      (job : ScheduledCliJob) (position : ℕ) (s : RunState)
      → Polls w job
      → Gives (visit_job w c job position s)
  unfolding visit_job
  visit_job_returns job position s polls = by_reason (skip_reason w c job s)
    where
      by_reason : (o : Option Skip) → Gives (skip_or_start w c job position s o)
      by_reason (some reason) = (_, refl)
      by_reason none = start_job_returns job position s job.wait_for polls

  lookup_found :
      (jobs : List ScheduledCliJob) (n : String) (job : ScheduledCliJob)
      → by_name jobs n ≡ some job
      → lookup_job w c jobs n ≡ ok job
  lookup_found jobs n job found = ground (arith, found)

  run_jobs_returns :
      (jobs : List ScheduledCliJob) (order : List String) (s : RunState)
      → All (Polls w) jobs
      → ((n : String) → elem n order ≡ true → elem n (names jobs) ≡ true)
      → Gives (run_jobs w c jobs order s)
  unfolding run_jobs elem
  run_jobs_returns jobs [] s h known = (s, refl)
  run_jobs_returns jobs (n ∷ order) s h known = elim (by_name_finds w jobs n h) [
    | inl (absent, unlisted) ↦ absurd (ground (arith, known n, eq_refl n))
    | inr (job, found, polls) ↦
        let (t, visited) = visit_job_returns job (position_by_name jobs 1 n) s polls in
        let (u, rest) = run_jobs_returns jobs order t h (λ m i. known m (ground arith)) in
        (u, rw (lookup_found jobs n job found, visited) rest)
  ]

-- The run of an accepted plan, whose sensors poll at intervals, and for at most 1023 of them where
-- they ask for HTTP, returns: no job is missing, and every sensor ends.
pub run_schedule_plan_returns :
    (w : World) (c : Bool) (plan p : SchedulePlan) (clock : Clock)
    → validate_dependencies plan ≡ ok p
    → All (Polls w) plan.jobs
    → (summary : RunSummary) × ((code : ℤ) × (run_schedule_plan w c plan clock
          ≡ ok (summary, code)))
unfolding run_schedule_plan
run_schedule_plan_returns w c plan p clock accepted polls =
    let (same, known, irreflexive, distinct, (order, sorts, schedule)) =
      validate_dependencies_sound plan p accepted in
    let (t, ran) = run_jobs_returns w c plan.jobs order (initial clock) polls (λ n i.
      bit_true (elem n (names plan.jobs))
        (omega (arith, schedule.once n, count-of_elem n order i))) in
    (summary_of plan.jobs order t, (t.overall_exit_code, rw sorts (rw ran refl)))
  where
    bit_true : (b : Bool) → 0 < bit b → b ≡ true
    bit_true b h = ground arith
