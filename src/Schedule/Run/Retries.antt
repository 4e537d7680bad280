-- ===== src/Schedule/Run/Retries.antt =====
-- The loop over the attempts of one job.
use elt_pipeline.Prelude.{
  ℕ, zero, suc, String, false, ◌≡◌, refl, ap, inl, inr, List, [], ◌∷◌, ◌++◌, ◌+◌, ◌≤◌,
  if◌then◌else◌, Bool-cases, arith, All, length, ltb, ◌&&◌,
}
use elt_pipeline.Prelude.Int.{is_zero}
use elt_pipeline.Schedule.Model.{ScheduledCliJob}
use elt_pipeline.Schedule.World.{World, Clock, Exit, pass}
use elt_pipeline.Schedule.Rows.{AttemptRow}
use elt_pipeline.Schedule.Run.{Attempts, run_attempts, job_attempts, no_exit}

abbrev pub IsFailed : AttemptRow → Type 0
IsFailed row = is_zero row.exit.exit_code ≡ false

-- The rows that at most `allowed` attempts leave: all but the last failed, the last one is final,
-- and none is given up early.
pub record IsRetried (allowed : ℕ) (tried : Attempts) : Type 0 where
  pub earlier : List AttemptRow
  pub last : AttemptRow
  pub rows : tried.rows ≡ earlier ++ last ∷ []
  pub final : last.exit ≡ tried.final
  pub all_failed : All IsFailed earlier
  pub within : length tried.rows ≤ allowed
  pub exhausted : is_zero tried.final.exit_code ≡ false → length tried.rows ≡ allowed

one-IsRetried :
    (allowed : ℕ) (row : AttemptRow) (c : Clock)
    → (is_zero row.exit.exit_code ≡ false → allowed ≡ 1)
    → 1 ≤ allowed
    → IsRetried allowed (record { rows = row ∷ []; final = row.exit; clock = c })
one-IsRetried allowed row c h k = record {
  earlier = [];
  last = row;
  rows = refl;
  final = refl;
  all_failed = tt;
  within = omega (arith, k);
  exhausted = λ bad. omega (arith, h bad);
}

cons-IsRetried :
    (allowed : ℕ) (row : AttemptRow) (rest : Attempts)
    → is_zero row.exit.exit_code ≡ false
    → IsRetried allowed rest
    → IsRetried (suc allowed) (record rest { rows = row ∷ rest.rows })
cons-IsRetried allowed row rest bad h = record {
  earlier = row ∷ h.earlier;
  last = h.last;
  rows = ap (◌∷◌ row) h.rows;
  final = h.final;
  all_failed = (bad, h.all_failed);
  within = omega (arith, h.within);
  exhausted = λ b. omega (arith, h.exhausted b);
}

module _ (w : World) (argv : List String) (delay : ℕ) where
  abbrev rested : ℕ → Clock → Clock
  rested attempt c = if ltb 1 attempt && ltb 0 delay then pass w delay c else c

  abbrev row_at : ℕ → Clock → AttemptRow
  row_at attempt c = record { attempt = attempt; exit = w.invoke argv (rested attempt c).actions }

  run_attempts-IsRetried :
      (left attempt : ℕ) (last : Exit) (c : Clock)
      → IsRetried (suc left) (run_attempts w argv delay (suc left) attempt last c)
  unfolding run_attempts
  run_attempts-IsRetried zero attempt last c =
      elim (Bool-cases (is_zero (row_at attempt c).exit.exit_code)) [
        | inl good ↦ rw good (
            one-IsRetried 1 (row_at attempt c) (pass w 0 (rested attempt c)) (λ bad. refl)
              (omega arith))
        | inr bad ↦ rw bad (
            one-IsRetried 1 (row_at attempt c) (pass w 0 (rested attempt c)) (λ bad. refl)
              (omega arith))
      ]
  run_attempts-IsRetried (suc left) attempt last c =
      elim (Bool-cases (is_zero (row_at attempt c).exit.exit_code)) [
        | inl good ↦ rw good (
            one-IsRetried (suc (suc left)) (row_at attempt c) (pass w 0 (rested attempt c))
              (λ bad. absurd (ground arith)) (omega arith))
        | inr bad ↦ rw bad (
            cons-IsRetried (suc left) (row_at attempt c) _ bad (
              run_attempts-IsRetried left (suc attempt) (row_at attempt c).exit
                (pass w 0 (rested attempt c))))
      ]

-- A job is tried at most once more than it has retries; all attempts but the last failed; and a job
-- whose last attempt failed has used all of them.
pub job_attempts-IsRetried :
    (w : World) (job : ScheduledCliJob) (c : Clock)
    → IsRetried (1 + job.retries) (job_attempts w job c)
unfolding job_attempts
job_attempts-IsRetried w job c =
    let more : 1 + job.retries ≡ suc job.retries = omega arith in
    rw more (run_attempts-IsRetried w job.argv job.retry_delay_seconds job.retries 1 no_exit c)
