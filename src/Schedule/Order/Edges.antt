-- ===== src/Schedule/Order/Edges.antt =====
-- The edges of the schedule: how often a job depends on a name, and how many dependencies of a
-- name are still open.
use elt_pipeline.Prelude.{
  ℕ, String, ◌≡◌, refl, true, false, List, [], ◌∷◌, ◌++◌, ◌+◌, ◌==◌, eq_iff, if◌then◌else◌, length,
  arith, is_some,
}
use elt_pipeline.Prelude.Names.{elem, count, elem-append}
use elt_pipeline.Prelude.Dict.{Dict, get, put, get_or, get_or-put, get-put, IsUnique, put-IsUnique}
use elt_pipeline.Schedule.Model.{ScheduledCliJob, names}
use elt_pipeline.Schedule.Order.{constant_from, count_deps, count_jobs, indegrees}

-- The entries of `deps` that are not in `done`.
unfoldable pub missing : List String → List String → ℕ
missing done [] = 0
missing done (d ∷ deps) = (if elem d done then 0 else 1) + missing done deps

-- The open dependencies of the jobs named `n`.
unfoldable pub open_deps : List String → String → List ScheduledCliJob → ℕ
unfolding missing
open_deps done n [] = 0
open_deps done n (job ∷ jobs) =
    (if job.name == n then missing done job.depends_on else 0) + open_deps done n jobs

-- How often the jobs named `n` list `d`.
unfoldable pub edge_count : String → String → List ScheduledCliJob → ℕ
edge_count d n [] = 0
edge_count d n (job ∷ jobs) =
    (if job.name == n then count d job.depends_on else 0) + edge_count d n jobs

missing-snoc :
    (done : List String) (d : String) (deps : List String)
    → elem d done ≡ false
    → missing done deps ≡ missing (done ++ d ∷ []) deps + count d deps
unfolding missing count elem
missing-snoc done d [] h = omega arith
missing-snoc done d (e ∷ deps) h =
    ground (arith, missing-snoc done d deps, elem-append e done (d ∷ []), eq_iff d e, eq_iff e d)

pub open_deps-snoc :
    (done : List String) (d n : String) (jobs : List ScheduledCliJob)
    → elem d done ≡ false
    → open_deps done n jobs ≡ open_deps (done ++ d ∷ []) n jobs + edge_count d n jobs
unfolding open_deps edge_count
open_deps-snoc done d n [] h = omega arith
open_deps-snoc done d n (job ∷ jobs) h =
    ground (arith, missing-snoc done d job.depends_on, open_deps-snoc done d n jobs)

missing-nil : (deps : List String) → missing [] deps ≡ length deps
unfolding missing elem
missing-nil [] = refl
missing-nil (d ∷ deps) = omega (arith, missing-nil deps)

get_or-count_deps :
    (name : String) (d : Dict ℕ) (deps : List String) (n : String)
    → get_or (count_deps name d deps) n 0 ≡ get_or d n 0 + (if name == n then length deps else 0)
unfolding count_deps
get_or-count_deps name d [] n = ground arith
get_or-count_deps name d (dep ∷ deps) n = ground (
  arith,
  get_or-count_deps name (put d name (get_or d name 0 + 1)) deps n,
  get_or-put d name n (get_or d name 0 + 1) 0,
  eq_iff name n,
)

get_or-count_jobs :
    (d : Dict ℕ) (jobs : List ScheduledCliJob) (n : String)
    → get_or (count_jobs d jobs) n 0 ≡ get_or d n 0 + open_deps [] n jobs
unfolding count_jobs open_deps
get_or-count_jobs d [] n = omega arith
get_or-count_jobs d (job ∷ jobs) n = ground (
  arith,
  get_or-count_jobs (count_deps job.name d job.depends_on) jobs n,
  get_or-count_deps job.name d job.depends_on n,
  missing-nil job.depends_on,
)

module _ {V : Type 0} (v : V) where
  pub get_or-constant_from :
      (d : Dict V) (jobs : List ScheduledCliJob) (n : String)
      → get_or d n v ≡ v
      → get_or (constant_from v d jobs) n v ≡ v
  unfolding constant_from
  get_or-constant_from d [] n h = h
  get_or-constant_from d (job ∷ jobs) n h =
      get_or-constant_from (put d job.name v) jobs n (ground (arith, get_or-put d job.name n v v))

  pub has-constant_from :
      (d : Dict V) (jobs : List ScheduledCliJob) (n : String)
      → is_some (get (constant_from v d jobs) n)
        ≡ (if elem n (names jobs) then true else is_some (get d n))
  unfolding constant_from elem
  has-constant_from d [] n = refl
  has-constant_from d (job ∷ jobs) n = ground (
    arith,
    has-constant_from (put d job.name v) jobs n,
    get-put d job.name n v,
    eq_iff job.name n,
    eq_iff n job.name,
  )

  pub constant_from-IsUnique :
      (d : Dict V) (jobs : List ScheduledCliJob) → IsUnique d → IsUnique (constant_from v d jobs)
  unfolding constant_from
  constant_from-IsUnique d [] u = u
  constant_from-IsUnique d (job ∷ jobs) u =
      constant_from-IsUnique (put d job.name v) jobs (put-IsUnique d job.name v u)

-- The initial degrees are the numbers of dependencies.
pub get_or-indegrees :
    (jobs : List ScheduledCliJob) (n : String) → get_or (indegrees jobs) n 0 ≡ open_deps [] n jobs
unfolding indegrees get_or get
get_or-indegrees jobs n = omega (
  arith,
  get_or-count_jobs (constant_from 0 [] jobs) jobs n,
  get_or-constant_from {V = ℕ} 0 [] jobs n refl,
)
