-- ===== src/Schedule/Plan.antt =====
-- `SchedulePlan.validate_dependencies` of src/elt_pipeline/shared/scheduler.py.
pub mod References
pub mod Accepts
pub mod Cycles
use elt_pipeline.Prelude.{
  ℕ, String, Bool, true, false, not, Option, none, some, List, [], ◌∷◌, map, eqb, if◌then◌else◌,
  filter, length, is_empty, Attempt, ok, raise, ◌>>=◌, ◌>>◌, guard,
}
use elt_pipeline.Prelude.Names.{elem, sorted, add}
use elt_pipeline.Schedule.Model.{
  ScheduledCliJob, SchedulePlan, PlanError, unknown_depends_on, depends_on_itself,
  cyclic_dependency, names,
}
use elt_pipeline.Schedule.Order.{topological_sort_schedule_jobs}

abbrev pub unknown_deps : List String → ScheduledCliJob → List String
unknown_deps job_names job = filter (λ dep. not (elem dep job_names)) job.depends_on

-- The loop over the jobs: the first unknown reference, or the first job that names itself.
unfoldable pub check_references : List String → List ScheduledCliJob → Attempt PlanError Unit
check_references job_names [] = ok tt
check_references job_names (job ∷ jobs) = do
  let unknown = unknown_deps job_names job
  guard (is_empty unknown) (unknown_depends_on job.name unknown)
  guard (not (elem job.name job.depends_on)) (depends_on_itself job.name)
  check_references job_names jobs

-- `set(xs)`, in the order of first occurrence.
unfoldable pub to_set : List String → List String → List String
to_set s [] = s
to_set s (x ∷ xs) = to_set (add x s) xs

-- `{j.name for j in self.jobs} - set(order)`
unfoldable pub remaining : List ScheduledCliJob → List String → List String
unfolding to_set
remaining jobs order = filter (λ n. not (elem n order)) (to_set [] (names jobs))

unfoldable pub validate_dependencies : SchedulePlan → Attempt PlanError SchedulePlan
unfolding check_references remaining
validate_dependencies plan = do
  check_references (names plan.jobs) plan.jobs
  order ← topological_sort_schedule_jobs plan.jobs
  guard (eqb (length order) (length plan.jobs))
      (cyclic_dependency (sorted (remaining plan.jobs order)))
  ok plan
