-- ===== src/Schedule/Run/Safety.antt =====
-- The order of the rows: a job runs behind its dependencies, and not behind a stop.
use elt_pipeline.Prelude.{
  String, Bool, true, false, ◌≡◌, ◌≢◌, refl, sym, ap, inl, inr, ◌∙◌, none, List, [], ◌∷◌, ◌++◌,
  if◌then◌else◌, Bool-cases, arith, subst, All, not, filter, is_empty,
}
use elt_pipeline.Prelude.Int.{is_zero}
use elt_pipeline.Prelude.Names.{elem, add, elem-filter}
use elt_pipeline.Schedule.Model.{ScheduledCliJob}
use elt_pipeline.Schedule.Rows.{RunState, JobResult, SkippedJob, skipped_upstream_failure}
use elt_pipeline.Schedule.Run.{unmet_deps, failed_deps}
use elt_pipeline.Schedule.Run.Steps.{Because, IsSkip, IsRun, Step, Steps}
use elt_pipeline.Schedule.Run.Laws.{Steps-keep}

-- The jobs that succeeded, in the order of their rows, behind those of `before`.
abbrev pub completed_after : List String → List JobResult → List String
completed_after before [] = before
completed_after before (r ∷ rs) =
    completed_after (if is_zero r.exit_code then add r.name before else before) rs

-- Every job that ran has all of its dependencies among the jobs that had succeeded by then.
abbrev pub IsBehind : List String → List JobResult → Type 0
IsBehind before [] = Unit
IsBehind before (r ∷ rs) =
    ((dep : String) → elem dep r.depends_on ≡ true → elem dep before ≡ true)
    × IsBehind (if is_zero r.exit_code then add r.name before else before) rs

completed_after-append :
    (before : List String) (rs qs : List JobResult)
    → completed_after before (rs ++ qs) ≡ completed_after (completed_after before rs) qs
completed_after-append before [] qs = refl
completed_after-append before (r ∷ rs) qs =
    completed_after-append (if is_zero r.exit_code then add r.name before else before) rs qs

IsBehind-append :
    (before : List String) (rs qs : List JobResult)
    → IsBehind before rs
    → IsBehind (completed_after before rs) qs
    → IsBehind before (rs ++ qs)
IsBehind-append before [] qs h k = k
IsBehind-append before (r ∷ rs) qs h k =
    (h.0, IsBehind-append (if is_zero r.exit_code then add r.name before else before) rs qs h.1 k)

none-filtered :
    (p : String → Bool) (xs : List String) (n : String)
    → filter p xs ≡ []
    → elem n xs ≡ true
    → p n ≡ false
unfolding elem
none-filtered p xs n h i = elim (Bool-cases (p n)) [
  | inr out ↦ out
  | inl kept ↦ absurd (ground (arith, elem-filter p n xs, ap (elem n) h))
]

record IsOrdered (s : RunState) : Type 0 where
  completed : s.completed ≡ completed_after [] s.job_results
  behind : IsBehind [] s.job_results

module _ (c : Bool) where
  Step-IsOrdered :
      (job : ScheduledCliJob) (s t : RunState) → Step c job s t → IsOrdered s → IsOrdered t
  unfolding unmet_deps
  Step-IsOrdered job s t (inl skip) h = record {
    completed = skip.completed ∙ h.completed ∙ sym (ap (completed_after []) skip.job_results);
    behind = subst (IsBehind []) (sym skip.job_results) h.behind;
  }
  Step-IsOrdered job s t (inr run) h = record {
    completed =
        run.completed
        ∙ ap (λ v. if is_zero run.row.exit_code then add job.name v else v) h.completed
        ∙ ap
            (λ n.
              if is_zero run.row.exit_code
              then add n (completed_after [] s.job_results)
              else completed_after [] s.job_results)
            (sym run.name)
        ∙ sym (completed_after-append [] s.job_results (run.row ∷ []))
        ∙ sym (ap (completed_after []) run.job_results);
    behind = subst (IsBehind []) (sym run.job_results) (
        IsBehind-append [] s.job_results (run.row ∷ []) h.behind
          (λ dep i. ready dep (subst (λ deps. elem dep deps ≡ true) run.depends_on i), tt));
  }
    where
      ready :
          (dep : String)
          → elem dep job.depends_on ≡ true
          → elem dep (completed_after [] s.job_results) ≡ true
      ready dep i =
          subst (λ done. elem dep done ≡ true) h.completed
            (ground
              (arith, none-filtered (λ d. not (elem d s.completed)) job.depends_on dep run.met i))

  pub Steps-IsBehind :
      (jobs : List ScheduledCliJob) (names : List String) (s t : RunState)
      → Steps c jobs names s t
      → s.completed ≡ []
      → s.job_results ≡ []
      → (t.completed ≡ completed_after [] t.job_results) × IsBehind [] t.job_results
  Steps-IsBehind jobs names s t steps e f =
      let kept =
        Steps-keep c jobs (λ visited u. IsOrdered u)
          (λ visited job u v found step h. Step-IsOrdered job u v step h) names [] s t steps
          (record {
            completed = e ∙ sym (ap (completed_after []) f);
            behind = subst (IsBehind []) (sym f) tt;
          }) in
      (kept.completed, kept.behind)

-- All rows but the last have exit code 0.
abbrev pub IsUntilFailure : List JobResult → Type 0
IsUntilFailure [] = Unit
IsUntilFailure (r ∷ []) = Unit
IsUntilFailure (r ∷ q ∷ rs) = (is_zero r.exit_code ≡ true) × IsUntilFailure (q ∷ rs)

abbrev pub IsGood : JobResult → Type 0
IsGood r = is_zero r.exit_code ≡ true

abbrev pub NotUpstream : SkippedJob → Type 0
NotUpstream row = (deps : List String) → row.reason ≢ skipped_upstream_failure deps

pub All-append :
    {A : Type 0} (P : A → Type 0) (xs ys : List A) → All P xs → All P ys → All P (xs ++ ys)
All-append P [] ys h k = k
All-append P (x ∷ xs) ys h k = (h.0, All-append P xs ys h.1 k)

good-then-one :
    (rs : List JobResult) (r : JobResult) → All IsGood rs → IsUntilFailure (rs ++ r ∷ [])
good-then-one [] r h = tt
good-then-one (q ∷ []) r h = (h.0, tt)
good-then-one (q ∷ p ∷ rs) r h = (h.0, good-then-one (p ∷ rs) r h.1)

good_until : (rs : List JobResult) → All IsGood rs → IsUntilFailure rs
good_until [] h = tt
good_until (q ∷ []) h = tt
good_until (q ∷ p ∷ rs) h = (h.0, good_until (p ∷ rs) h.1)

-- Without `continue_on_error`, no job has failed while nothing has stopped the run.
record IsStrict (c : Bool) (s : RunState) : Type 0 where
  until_failure : c ≡ false → IsUntilFailure s.job_results
  going : c ≡ false → s.stop_after_this_job ≡ none → All IsGood s.job_results × (s.failed ≡ [])
  not_upstream : All NotUpstream s.skipped_jobs

pub elem-empty : (deps : List String) → filter (λ dep. elem dep []) deps ≡ []
unfolding elem
elem-empty [] = refl
elem-empty (d ∷ ds) = elem-empty ds

upstream_refuted :
    (c : Bool) (job : ScheduledCliJob) (s : RunState) (deps : List String)
    → (deps ≡ failed_deps job s)
      × (is_empty deps ≡ false)
      × (c ≡ false)
      × (s.stop_after_this_job ≡ none)
    → (c ≡ false → s.stop_after_this_job ≡ none → All IsGood s.job_results × (s.failed ≡ []))
    → ⊥
unfolding failed_deps
upstream_refuted c job s deps (same, filled, off, going) h =
    let none_left : deps ≡ [] =
      same
      ∙ ap (λ (fs : List String). filter (λ dep. elem dep fs) job.depends_on) (h off going).1
      ∙ elem-empty job.depends_on in
    ground (arith, none_left)

module _ (c : Bool) where
  skip-NotUpstream :
      (job : ScheduledCliJob) (s t : RunState) (skip : IsSkip c job s t)
      → IsStrict c s
      → NotUpstream skip.row
  skip-NotUpstream job s t skip h deps e =
      upstream_refuted c job s deps (subst (Because c job s) e skip.because) h.going

  going_good :
      (job : ScheduledCliJob) (s t : RunState) (run : IsRun c job s t)
      → c ≡ false
      → t.stop_after_this_job ≡ none
      → is_zero run.row.exit_code ≡ true
  going_good job s t run off going = ground (arith, run.stop, off, going)

  Step-IsStrict :
      (job : ScheduledCliJob) (s t : RunState) → Step c job s t → IsStrict c s → IsStrict c t
  Step-IsStrict job s t (inl skip) h = record {
    until_failure = λ off. subst IsUntilFailure (sym skip.job_results) (h.until_failure off);
    going = λ off going.
        let (good, none_failed) = h.going off (sym skip.stop ∙ going) in
        (subst (All IsGood) (sym skip.job_results) good, skip.failed ∙ none_failed);
    not_upstream = subst (All NotUpstream) (sym skip.skipped_jobs) (
        All-append NotUpstream s.skipped_jobs (skip.row ∷ []) h.not_upstream
          (skip-NotUpstream job s t skip h, tt));
  }
  Step-IsStrict job s t (inr run) h = record {
    until_failure = λ off.
        subst IsUntilFailure (sym run.job_results)
          (good-then-one s.job_results run.row (h.going off run.going).0);
    going = λ off going.
        let (good, none_failed) = h.going off run.going in
        let this = going_good job s t run off going in
        (
          subst (All IsGood) (sym run.job_results)
              (All-append IsGood s.job_results (run.row ∷ []) good (this, tt)),
          run.failed ∙ rw this none_failed,
        );
    not_upstream = subst (All NotUpstream) (sym run.skipped_jobs) h.not_upstream;
  }

  pub Steps-IsStrict :
      (jobs : List ScheduledCliJob) (names : List String) (s t : RunState)
      → Steps c jobs names s t
      → s.job_results ≡ []
      → s.skipped_jobs ≡ []
      → s.failed ≡ []
      → (c ≡ false → IsUntilFailure t.job_results) × All NotUpstream t.skipped_jobs
  Steps-IsStrict jobs names s t steps e f g =
      let kept =
        Steps-keep c jobs (λ visited u. IsStrict c u)
          (λ visited job u v found step h. Step-IsStrict job u v step h) names [] s t steps
          (record {
            until_failure = λ off. subst IsUntilFailure (sym e) tt;
            going = λ off going. (subst (All IsGood) (sym e) tt, g);
            not_upstream = subst (All NotUpstream) (sym f) tt;
          }) in
      (kept.until_failure, kept.not_upstream)
