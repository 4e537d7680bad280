-- ===== src/Schedule/Model.antt =====
-- The pydantic models of src/elt_pipeline/shared/scheduler.py with their validators. Seconds, which
-- the source holds as floats, are counted in thousandths.
use elt_pipeline.Prelude.{
  ℕ, String, Bool, true, false, not, ◌&&◌, ◌||◌, Option, none, some, List, [], ◌∷◌, map, ◌+◌, ◌==◌,
  ltb, leb, is_some, is_empty, all, Attempt, ok, raise, ◌>>=◌, ◌>>◌, guard,
}
use elt_pipeline.Prelude.Names.{elem}
use elt_pipeline.Prelude.Dict.{Dict, get, keys}
use elt_pipeline.Prelude.Text.{strip}

-- What the validators and the runner raise.
pub data PlanError : Type 0 where
  field_constraint : PlanError
  wait_kind_missing : PlanError
  wait_kind_many : ℕ → PlanError
  glob_keys glob_base_empty glob_pattern_empty : PlanError
  argv_entry_empty nested_schedule program_name : PlanError
  name_empty depends_on_entry_empty : PlanError
  unknown_depends_on : String → List String → PlanError
  depends_on_itself : String → PlanError
  cyclic_dependency : List String → PlanError
  key_error : String → PlanError
  overflow_error : PlanError
  out_of_fuel : PlanError

pub record WaitForSpec : Type 0 where
  pub path_exists : Option String
  pub path_glob : Option (Dict String)
  pub http_url : Option String
  pub poll_sec : ℕ
  pub timeout_sec : ℕ

pub record ScheduledCliJob : Type 0 where
  pub name : String
  pub argv : List String
  pub retries : ℕ
  pub retry_delay_seconds : ℕ
  pub depends_on : List String
  pub wait_for : Option WaitForSpec
  pub sla_seconds : Option ℕ

pub record SchedulePlan : Type 0 where
  pub jobs : List ScheduledCliJob
  pub continue_on_error : Bool

abbrev pub bit : Bool → ℕ
bit true = 1
bit false = 0

-- `Field(default=None, min_length=1)`
abbrev filled : Option String → Bool
filled none = true
filled (some s) = not (s == "")

-- The `Field` constraints of `WaitForSpec`.
wait_fields : WaitForSpec → Bool
wait_fields w =
    filled w.path_exists
    && filled w.http_url
    && (leb 10 w.poll_sec && leb w.poll_sec 3600000)
    && (leb 100 w.timeout_sec && leb w.timeout_sec (86400000 + 518400000))

unfoldable pub kinds_present : WaitForSpec → ℕ
kinds_present w = bit (is_some w.path_exists) + bit (is_some w.path_glob) + bit (is_some w.http_url)

-- `set(path_glob.keys()) != {"base", "pattern"}`, and the two tests of the values.
validate_glob : Option (Dict String) → Attempt PlanError Unit
validate_glob none = ok tt
validate_glob (some glob) = elim (get glob "base") [
  | none ↦ raise glob_keys
  | some base ↦ elim (get glob "pattern") [
    | none ↦ raise glob_keys
    | some pat ↦ (do
      guard (all (λ k. k == "base" || k == "pattern") (keys glob)) glob_keys
      guard (not (strip base == "")) glob_base_empty
      guard (not (strip pat == "")) glob_pattern_empty)
  ]
]

-- `WaitForSpec.validate_one_kind`
unfoldable pub validate_one_kind : WaitForSpec → Attempt PlanError WaitForSpec
unfolding kinds_present validate_glob
validate_one_kind w = do
  guard (ltb 0 (kinds_present w)) wait_kind_missing
  guard (leb (kinds_present w) 1) (wait_kind_many (kinds_present w))
  validate_glob w.path_glob
  ok w

validate_wait_for : Option WaitForSpec → Attempt PlanError (Option WaitForSpec)
unfolding validate_one_kind wait_fields
validate_wait_for none = ok none
validate_wait_for (some w) = do
  guard (wait_fields w) field_constraint
  v ← validate_one_kind w
  ok (some v)

-- The `Field` constraints of `ScheduledCliJob`.
job_fields : ScheduledCliJob → Bool
job_fields job =
    not (job.name == "")
    && not (is_empty job.argv)
    && leb job.retries 100
    && leb job.retry_delay_seconds 3600000
    && elim job.sla_seconds [ none ↦ true | some s ↦ ltb 0 s ]

-- The tests of `normalized_argv[0]`. The list has an entry by the field constraint.
validate_first : List String → Attempt PlanError Unit
validate_first [] = ok tt
validate_first (first ∷ rest) = do
  guard (not (first == "schedule")) nested_schedule
  guard (not (elem first ("elt-pipeline" ∷ "python" ∷ "python3" ∷ []))) program_name

-- `ScheduledCliJob.validate_argv`
unfoldable pub validate_argv : ScheduledCliJob → Attempt PlanError ScheduledCliJob
unfolding validate_first
validate_argv job = do
  let normalized_argv = map strip job.argv
  guard (all (λ a. not (a == "")) normalized_argv) argv_entry_empty
  validate_first normalized_argv
  let name = strip job.name
  guard (not (name == "")) name_empty
  let normalized_deps = map strip job.depends_on
  guard (all (λ d. not (d == "")) normalized_deps) depends_on_entry_empty
  ok (record job { argv = normalized_argv; name = name; depends_on = normalized_deps })

-- A job as pydantic builds it: its sensor first, the field constraints, then the validator.
unfoldable pub validate_job : ScheduledCliJob → Attempt PlanError ScheduledCliJob
unfolding validate_wait_for job_fields validate_argv
validate_job job = do
  wait ← validate_wait_for job.wait_for
  guard (job_fields job) field_constraint
  validate_argv (record job { wait_for = wait })

abbrev pub names : List ScheduledCliJob → List String
names [] = []
names (job ∷ jobs) = job.name ∷ names jobs
