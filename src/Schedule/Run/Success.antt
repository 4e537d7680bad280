-- ===== src/Schedule/Run/Success.antt =====
-- A run with exit code 0, when the order has each job behind its dependencies.
use elt_pipeline.Prelude.{
  String, Bool, true, false, ◌≡◌, refl, sym, ap, inl, inr, ◌∙◌, none, some, List, [], ◌∷◌, ◌++◌,
  Bool-cases, arith, eq_iff, subst, All, not, filter, is_some, ◌==◌, eq_refl,
}
use elt_pipeline.Prelude.Int.{is_zero}
use elt_pipeline.Prelude.Names.{elem, add, elem-add, elem-append}
use elt_pipeline.Schedule.Model.{ScheduledCliJob}
use elt_pipeline.Schedule.Order.Correct.{DepsIn}
use elt_pipeline.Schedule.Rows.{
  RunState, by_name, skipped_stop_on_error, skipped_upstream_failure, skipped_unmet_dependencies,
  Skip,
}
use elt_pipeline.Schedule.Run.{unmet_deps, failed_deps}
use elt_pipeline.Schedule.Run.Steps.{Because, IsRun, Step, Steps, done, next}
use mathlib.Core.List.{append-nil, append_assoc}
use elt_pipeline.Schedule.Run.Laws.{by_name-some}
use elt_pipeline.Schedule.Run.Safety.{IsGood, All-append, elem-empty}

-- As long as the exit code is 0, every job visited has completed.
pub record IsClean (visited : List String) (s : RunState) : Type 0 where
  pub none_skipped : s.skipped_jobs ≡ []
  pub none_failed : s.failed ≡ []
  pub going : s.stop_after_this_job ≡ none
  pub good : All IsGood s.job_results
  pub completed : (n : String) → elem n visited ≡ true → elem n s.completed ≡ true

-- The dependencies of the job that `by_name` finds.
found_deps :
    (jobs : List ScheduledCliJob) (name : String) (job : ScheduledCliJob) (visited : List String)
    → by_name jobs name ≡ some job
    → DepsIn visited name jobs
    → (dep : String) → elem dep job.depends_on ≡ true
    → elem dep visited ≡ true
unfolding by_name
found_deps [] name job visited found h dep i = cc
found_deps (j ∷ jobs) name job visited found h dep i =
    elim (Bool-cases (is_some (by_name jobs name))) [
      | inl later ↦ found_deps jobs name job visited (rw later at found) h.1 dep i
      | inr not_later ↦ elim (Bool-cases (j.name == name)) [
        | inr other ↦ absurd (ground arith)
        | inl here ↦
            let same : j ≡ job = ground arith in
            h.0 ((eq_iff j.name name).0 here) dep
              (ap (λ (k : ScheduledCliJob). elem dep k.depends_on) same ∙ i)
      ]
    ]

-- No dependency is left when all of them have completed.
none_unmet :
    (have : List String) (deps : List String)
    → ((dep : String) → elem dep deps ≡ true → elem dep have ≡ true)
    → filter (λ dep. not (elem dep have)) deps ≡ []
unfolding elem
none_unmet have [] h = refl
none_unmet have (d ∷ ds) h =
    ground (arith, h d, eq_refl d, none_unmet have ds (λ dep i. h dep (ground arith)))

module _ (c : Bool) (jobs : List ScheduledCliJob) where
  deps_met :
      (job : ScheduledCliJob) (visited : List String) (s : RunState)
      → by_name jobs job.name ≡ some job
      → DepsIn visited job.name jobs
      → IsClean visited s
      → unmet_deps job s ≡ []
  unfolding unmet_deps
  deps_met job visited s found h clean =
      none_unmet s.completed job.depends_on
        (λ dep i. clean.completed dep (found_deps jobs job.name job visited found h dep i))

  no_upstream : (job : ScheduledCliJob) (s : RunState) → s.failed ≡ [] → failed_deps job s ≡ []
  unfolding failed_deps
  no_upstream job s e =
      ap (λ (fs : List String). filter (λ dep. elem dep fs) job.depends_on) e
      ∙ elem-empty job.depends_on

  skip_refuted :
      (job : ScheduledCliJob) (visited : List String) (s : RunState) (reason : Skip)
      → unmet_deps job s ≡ []
      → IsClean visited s
      → Because c job s reason
      → ⊥
  skip_refuted job visited s (skipped_stop_on_error name) met clean e =
      ground (arith, e, clean.going)
  skip_refuted job visited s (skipped_upstream_failure deps) met clean (same, filled, off, still) =
      ground (arith, same ∙ no_upstream job s clean.none_failed, filled)
  skip_refuted job visited s (skipped_unmet_dependencies deps) met clean (same, filled, rest) =
      ground (arith, same ∙ met, filled)

  run-IsClean :
      (job : ScheduledCliJob) (visited : List String) (s t : RunState)
      → IsRun c job s t
      → is_zero s.overall_exit_code ≡ true
      → is_zero t.overall_exit_code ≡ true
      → IsClean visited s
      → IsClean (visited ++ job.name ∷ []) t
  unfolding elem
  run-IsClean job visited s t run zero zero' clean =
      let good : is_zero run.row.exit_code ≡ true = sym (ap is_zero (code_kept zero)) ∙ zero' in
      record {
        none_skipped = run.skipped_jobs ∙ clean.none_skipped;
        none_failed = run.failed ∙ rw good clean.none_failed;
        going = run.stop ∙ rw good refl;
        good =
            subst (All IsGood) (sym run.job_results)
              (All-append IsGood s.job_results (run.row ∷ []) clean.good (good, tt));
        completed = λ n i.
            ap (elem n) (done_kept good)
            ∙ ground (
              arith,
              elem-add n job.name s.completed,
              elem-append n visited (job.name ∷ []),
              clean.completed n,
            );
      }
    where
      code_kept : is_zero s.overall_exit_code ≡ true → t.overall_exit_code ≡ run.row.exit_code
      code_kept e = run.code ∙ rw e refl

      done_kept : is_zero run.row.exit_code ≡ true → t.completed ≡ add job.name s.completed
      done_kept e = run.completed ∙ rw e refl

  Step-IsClean :
      (job : ScheduledCliJob) (visited : List String) (s t : RunState)
      → by_name jobs job.name ≡ some job
      → DepsIn visited job.name jobs
      → Step c job s t
      → (is_zero s.overall_exit_code ≡ true → IsClean visited s)
      → is_zero t.overall_exit_code ≡ true
      → IsClean (visited ++ job.name ∷ []) t
  Step-IsClean job visited s t found h (inl skip) clean zero =
      let was = clean (ap is_zero (sym skip.code) ∙ zero) in
      absurd (
        skip_refuted job visited s skip.row.reason (deps_met job visited s found h was) was
          skip.because)
  Step-IsClean job visited s t found h (inr run) clean zero =
      let before = zero_before (is_zero s.overall_exit_code) refl in
      run-IsClean job visited s t run before zero (clean before)
    where
      zero_before :
          (b : Bool) → is_zero s.overall_exit_code ≡ b → is_zero s.overall_exit_code ≡ true
      zero_before true e = e
      zero_before false e = sym (ap is_zero (run.code ∙ rw e refl)) ∙ zero

  -- In an order that has each job behind its dependencies, exit code 0 means that every job of the
  -- order completed.
  pub Steps-IsClean :
      (order visited names : List String) (s t : RunState)
      → ((xs ys : List String) (n : String) → order ≡ xs ++ n ∷ ys → DepsIn xs n jobs)
      → order ≡ visited ++ names
      → Steps c jobs names s t
      → (is_zero s.overall_exit_code ≡ true → IsClean visited s)
      → is_zero t.overall_exit_code ≡ true
      → IsClean order t
  Steps-IsClean order visited _ s _ first e done clean zero =
      subst (λ v. IsClean v s) (sym (e ∙ append-nil visited)) (clean zero)
  Steps-IsClean order visited _ s u first e (next {name} {names} {job} {t = t} found step rest)
        clean zero =
      let same = by_name-some jobs name job found in
      Steps-IsClean order (visited ++ name ∷ []) names t u first
        (e ∙ sym (append_assoc visited (name ∷ []) names)) rest
        (λ z.
          subst (λ n. IsClean (visited ++ n ∷ []) t) same
            (Step-IsClean job visited s t (subst (λ n. by_name jobs n ≡ some job) (sym same) found)
              (subst (λ n. DepsIn visited n jobs) (sym same) (first visited names name e)) step
              clean z))
        zero
