-- ===== src/Schedule/Run/Outcomes.antt =====
-- What skipping a job, a sensor that ends at its deadline, and the attempts of a job leave.
use elt_pipeline.Prelude.{
  ℕ, String, Bool, true, false, ◌≡◌, refl, sym, ap, inl, inr, Option, none, some, List, [], ◌∷◌,
  ◌-◌, ◌++◌, if◌then◌else◌, Bool-cases, Option-cases, arith, ltb, subst, ◌∙◌,
}
use elt_pipeline.Prelude.Int.{ℤ, pos, is_zero}
use elt_pipeline.Prelude.Names.{add}
use elt_pipeline.Schedule.Model.{ScheduledCliJob}
use elt_pipeline.Schedule.World.{World}
use elt_pipeline.Schedule.Sensor.{Watch, Target}
use elt_pipeline.Schedule.Rows.{RunState, JobResult, Skip}
use elt_pipeline.Schedule.Rows.{success, failed, failed_sensor}
use elt_pipeline.Schedule.Run.{
  first_reason, skip_job, fail_sensor, run_job, check_sla, mark, job_attempts, unmet_deps,
  is_breached,
}
use elt_pipeline.Schedule.Run.Steps.{
  Fits, fits_success, fits_failed, fits_sensor, BecauseOf, Because, IsSkip, IsRun,
}

-- Two states that differ in the sensors and the alerts.
record SameRun (s t : RunState) : Type 0 where
  results : t.job_results ≡ s.job_results
  skipped : t.skipped_jobs ≡ s.skipped_jobs
  done : t.completed ≡ s.completed
  fails : t.failed ≡ s.failed
  code : t.overall_exit_code ≡ s.overall_exit_code
  stop : t.stop_after_this_job ≡ s.stop_after_this_job

-- What `mark` leaves of `s`, when nothing has stopped the run.
record IsMarked (c : Bool) (job : ScheduledCliJob) (code : ℤ) (s t : RunState) : Type 0 where
  results : t.job_results ≡ s.job_results
  skipped : t.skipped_jobs ≡ s.skipped_jobs
  done : t.completed ≡ (if is_zero code then add job.name s.completed else s.completed)
  fails : t.failed ≡ (if is_zero code then s.failed else add job.name s.failed)
  overall :
      t.overall_exit_code ≡ (if is_zero s.overall_exit_code then code else s.overall_exit_code)
  stop : t.stop_after_this_job ≡ (if is_zero code then none else if c then none else some job.name)

is_zero_eq : (code : ℤ) → is_zero code ≡ true → code ≡ pos 0
is_zero_eq code h = ground arith

fitting : (code : ℤ) → Fits (if is_zero code then success else failed) code
fitting code = elim (Bool-cases (is_zero code)) [
  | inl good ↦ rw good (fits_success good)
  | inr bad ↦ rw bad (fits_failed bad)
]

module _ (w : World) (c : Bool) where
  Reason : Option String → List String → List String → Option Skip → Type 0
  Reason stop fails unmet none = Unit
  Reason stop fails unmet (some k) = BecauseOf c stop fails unmet k

  pub first_reason-some :
      (stop : Option String) (fails unmet : List String) (reason : Skip)
      → first_reason w c stop fails unmet ≡ some reason
      → BecauseOf c stop fails unmet reason
  unfolding Reason
  first_reason-some (some name) fails unmet reason h = subst (Reason (some name) fails unmet) h refl
  first_reason-some none [] [] reason h = cc
  first_reason-some none [] (d ∷ ds) reason h = subst (Reason none [] (d ∷ ds)) h (refl, refl, refl)
  first_reason-some none (d ∷ ds) [] reason h = elim (Bool-cases c) [
    | inl on ↦ absurd (ground arith)
    | inr off ↦ subst (Reason none (d ∷ ds) []) (rw off at h) (refl, refl, off, refl)
  ]
  first_reason-some none (d ∷ ds) (u ∷ us) reason h = elim (Bool-cases c) [
    | inl on ↦ subst (Reason none (d ∷ ds) (u ∷ us)) (rw on at h) (refl, refl, refl)
    | inr off ↦ subst (Reason none (d ∷ ds) (u ∷ us)) (rw off at h) (refl, refl, off, refl)
  ]

  pub first_reason-none :
      (stop : Option String) (fails unmet : List String)
      → first_reason w c stop fails unmet ≡ none
      → (stop ≡ none) × (unmet ≡ [])
  first_reason-none stop fails unmet h = ground arith

  check_sla_keeps :
      (job : ScheduledCliJob) (elapsed : ℕ) (s : RunState) → SameRun s (check_sla w c job elapsed s)
  unfolding check_sla
  check_sla_keeps job elapsed s = elim (Option-cases job.sla_seconds) [
    | inl e ↦ rw e (record {
      results = refl;
      skipped = refl;
      done = refl;
      fails = refl;
      code = refl;
      stop = refl;
    })
    | inr (sla, e) ↦ elim (Bool-cases (ltb sla elapsed)) [
      | inl late ↦
          rw (e, late)
            (record {
              results = refl;
              skipped = refl;
              done = refl;
              fails = refl;
              code = refl;
              stop = refl;
            })
      | inr early ↦
          rw (e, early)
            (record {
              results = refl;
              skipped = refl;
              done = refl;
              fails = refl;
              code = refl;
              stop = refl;
            })
    ]
  ]

  pub skip_job-IsSkip :
      (job : ScheduledCliJob) (position : ℕ) (reason : Skip) (s : RunState)
      → Because c job s reason
      → IsSkip c job s (skip_job w c job position reason s)
  unfolding skip_job
  skip_job-IsSkip job position reason s because = record {
    row = record {
      name = job.name;
      position = position;
      argv = job.argv;
      reason = reason;
      depends_on = job.depends_on;
    };
    name = refl;
    depends_on = refl;
    because = because;
    skipped_jobs = refl;
    job_results = refl;
    completed = refl;
    failed = refl;
    code = refl;
    stop = refl;
  }

  pub fail_sensor-IsRun :
      (job : ScheduledCliJob) (position : ℕ) (target : Target) (s : RunState) (v : Watch)
      → s.stop_after_this_job ≡ none
      → unmet_deps job s ≡ []
      → IsRun c job s (fail_sensor w c job position target (record s { watch = v }))
  unfolding fail_sensor
  fail_sensor-IsRun job position target s v going met = record {
    row = record {
      name = job.name;
      position = position;
      argv = job.argv;
      status = failed_sensor;
      exit_code = pos 5;
      attempts = [];
      retries_requested = job.retries;
      retry_delay_seconds = job.retry_delay_seconds;
      depends_on = job.depends_on;
      elapsed = 0;
      sla_breached = false;
      wait_for = some (target, false);
    };
    name = refl;
    depends_on = refl;
    fits = fits_sensor;
    going = going;
    met = met;
    job_results = refl;
    skipped_jobs = refl;
    completed = refl;
    failed = refl;
    code = refl;
    stop = rw going refl;
  }

  mark-IsMarked :
      (job : ScheduledCliJob) (code : ℤ) (s t : RunState)
      → s.stop_after_this_job ≡ none
      → SameRun s t
      → IsMarked c job code s (mark w c job code t)
  unfolding mark
  mark-IsMarked job code s t going same = elim (Bool-cases (is_zero code)) [
    | inl good ↦ record {
      results = rw good same.results;
      skipped = rw good same.skipped;
      done = rw good (ap (add job.name) same.done);
      fails = rw good same.fails;
      overall = rw good (same.code ∙ sym (overall_kept good));
      stop = rw good (same.stop ∙ going);
    }
    | inr bad ↦ record {
      results = rw bad same.results;
      skipped = rw bad same.skipped;
      done = rw bad same.done;
      fails = rw bad (ap (add job.name) same.fails);
      overall = rw bad (ap (λ o. if is_zero o then code else o) same.code);
      stop = rw bad (ap (λ o. if c then o else some job.name) (same.stop ∙ going));
    }
  ]
    where
      overall_kept :
          is_zero code ≡ true
          → (if is_zero s.overall_exit_code then code else s.overall_exit_code)
            ≡ s.overall_exit_code
      overall_kept good = elim (Bool-cases (is_zero s.overall_exit_code)) [
        | inl zero ↦ rw zero (is_zero_eq code good ∙ sym (is_zero_eq s.overall_exit_code zero))
        | inr other ↦ rw other refl
      ]

  pub run_job-IsRun :
      (job : ScheduledCliJob) (position : ℕ) (waited : Option (Target × Bool)) (s : RunState)
      (v : Watch)
      → s.stop_after_this_job ≡ none
      → unmet_deps job s ≡ []
      → IsRun c job s (run_job w c job position waited (record s { watch = v }))
  unfolding run_job
  run_job-IsRun job position waited s v going met =
      let tried = job_attempts w job v.clock in
      let elapsed = tried.clock.now - v.clock.now in
      let code = tried.final.exit_code in
      let at_end : RunState = record s { watch = record v { clock = tried.clock } } in
      let sla = check_sla_keeps job elapsed at_end in
      let kept : SameRun s (check_sla w c job elapsed at_end) = record {
        results = sla.results;
        skipped = sla.skipped;
        done = sla.done;
        fails = sla.fails;
        code = sla.code;
        stop = sla.stop;
      } in
      let marked = mark-IsMarked job code s (check_sla w c job elapsed at_end) going kept in
      let row : JobResult = record {
        name = job.name;
        position = position;
        argv = job.argv;
        status = if is_zero code then success else failed;
        exit_code = code;
        attempts = tried.rows;
        retries_requested = job.retries;
        retry_delay_seconds = job.retry_delay_seconds;
        depends_on = job.depends_on;
        elapsed = elapsed;
        sla_breached = is_breached w c job.sla_seconds elapsed;
        wait_for = waited;
      } in
      record {
        row = row;
        name = refl;
        depends_on = refl;
        fits = fitting code;
        going = going;
        met = met;
        job_results = ap (λ rows. rows ++ row ∷ []) marked.results;
        skipped_jobs = marked.skipped;
        completed = marked.done;
        failed = marked.fails;
        code = marked.overall;
        stop = marked.stop;
      }
