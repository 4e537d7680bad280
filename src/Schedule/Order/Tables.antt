-- ===== src/Schedule/Order/Tables.antt =====
-- The tables that the sort builds before its loop: `indegree`, `successors_of` and the first queue.
use elt_pipeline.Prelude.{
  ℕ, zero, suc, String, ◌≡◌, refl, true, none, some, List, [], ◌∷◌, ◌+◌, eq_iff, ltb, if◌then◌else◌,
  length, arith, is_some, ◌∙◌,
}
use elt_pipeline.Prelude.Names.{elem, count}
use elt_pipeline.Prelude.Dict.{Dict, get, put, get_or, get-put, IsUnique, put-IsUnique, ==_comm}
use elt_pipeline.Schedule.Model.{ScheduledCliJob, bit, names}
use elt_pipeline.Schedule.Order.{constant_from, count_deps, count_jobs, indegrees, zero_names}
use elt_pipeline.Schedule.Order.Edges.{has-constant_from, constant_from-IsUnique}

count_deps-IsUnique :
    (name : String) (d : Dict ℕ) (deps : List String)
    → IsUnique d
    → IsUnique (count_deps name d deps)
unfolding count_deps
count_deps-IsUnique name d [] u = u
count_deps-IsUnique name d (dep ∷ deps) u =
    count_deps-IsUnique name (put d name (get_or d name 0 + 1)) deps
      (put-IsUnique d name (get_or d name 0 + 1) u)

count_jobs-IsUnique :
    (d : Dict ℕ) (jobs : List ScheduledCliJob) → IsUnique d → IsUnique (count_jobs d jobs)
unfolding count_jobs
count_jobs-IsUnique d [] u = u
count_jobs-IsUnique d (job ∷ jobs) u =
    count_jobs-IsUnique (count_deps job.name d job.depends_on) jobs
      (count_deps-IsUnique job.name d job.depends_on u)

pub indegrees-IsUnique : (jobs : List ScheduledCliJob) → IsUnique (indegrees jobs)
unfolding indegrees
indegrees-IsUnique jobs =
    count_jobs-IsUnique (constant_from 0 [] jobs) jobs (constant_from-IsUnique {V = ℕ} 0 [] jobs tt)

-- Counting adds no key to a table that has the job's name.
pub has-count_deps :
    (name : String) (d : Dict ℕ) (deps : List String) (n : String)
    → is_some (get d name) ≡ true
    → is_some (get (count_deps name d deps) n) ≡ is_some (get d n)
unfolding count_deps
has-count_deps name d [] n h = refl
has-count_deps name d (dep ∷ deps) n h = ground (
  arith,
  has-count_deps name (put d name (get_or d name 0 + 1)) deps n,
  get-put d name n (get_or d name 0 + 1),
  get-put d name name (get_or d name 0 + 1),
  eq_iff name n,
  eq_iff name name,
)

has-count_jobs :
    (d : Dict ℕ) (jobs : List ScheduledCliJob) (n : String)
    → ((m : String) → elem m (names jobs) ≡ true → is_some (get d m) ≡ true)
    → is_some (get (count_jobs d jobs) n) ≡ is_some (get d n)
unfolding count_jobs elem
has-count_jobs d [] n h = refl
has-count_jobs d (job ∷ jobs) n h =
    has-count_jobs (count_deps job.name d job.depends_on) jobs n (λ m i. ground (
      arith,
      has-count_deps job.name d job.depends_on m,
      h m,
      h job.name,
      eq_iff job.name job.name,
    ))
    ∙ has-count_deps job.name d job.depends_on n
        (h job.name (ground (arith, eq_iff job.name job.name)))

pub has-indegrees :
    (jobs : List ScheduledCliJob) (n : String)
    → is_some (get (indegrees jobs) n) ≡ elem n (names jobs)
unfolding indegrees get
has-indegrees jobs n =
    has-count_jobs (constant_from 0 [] jobs) jobs n
      (λ m i. ground (arith, has-constant_from {V = ℕ} 0 [] jobs m))
    ∙ ground (arith, has-constant_from {V = ℕ} 0 [] jobs n)

-- The entries above 0.
unfoldable pub positive : Dict ℕ → ℕ
positive [] = 0
positive ((k, zero) ∷ d) = positive d
positive ((k, suc m) ∷ d) = suc (positive d)

pub length-zero_names : (d : Dict ℕ) → length (zero_names d) + positive d ≡ length d
unfolding zero_names positive
length-zero_names [] = omega arith
length-zero_names ((k, zero) ∷ d) = omega (arith, length-zero_names d)
length-zero_names ((k, suc m) ∷ d) = omega (arith, length-zero_names d)

count-zero_names-none : (d : Dict ℕ) (n : String) → get d n ≡ none → count n (zero_names d) ≡ 0
unfolding zero_names count get
count-zero_names-none [] n h = refl
count-zero_names-none ((k, zero) ∷ d) n h = ground (arith, count-zero_names-none d n, ==_comm n k)
count-zero_names-none ((k, suc m) ∷ d) n h = ground (arith, count-zero_names-none d n)

-- A key is in the first queue or has a degree above 0.
pub count-zero_names :
    (d : Dict ℕ) (n : String)
    → IsUnique d
    → count n (zero_names d) + bit (ltb 0 (get_or d n 0)) ≡ bit (is_some (get d n))
unfolding zero_names count get_or get
count-zero_names [] n u = refl
count-zero_names ((k, zero) ∷ d) n u =
    ground (arith, count-zero_names d n u.1, count-zero_names-none d n, eq_iff n k, eq_iff k n)
count-zero_names ((k, suc m) ∷ d) n u =
    ground (arith, count-zero_names d n u.1, count-zero_names-none d n, eq_iff n k, eq_iff k n)

-- Lowering a degree by one.
pub positive-put :
    (d : Dict ℕ) (s : String) (m : ℕ)
    → get d s ≡ some (suc m)
    → positive (put d s m) + (if ltb 0 m then 0 else 1) ≡ positive d
unfolding positive put get
positive-put [] s m h = cc
positive-put ((k, zero) ∷ d) s m h = ground (arith, positive-put d s m)
positive-put ((k, suc l) ∷ d) s zero h = ground (arith, positive-put d s zero)
positive-put ((k, suc l) ∷ d) s (suc m) h = ground (arith, positive-put d s (suc m))

length-put_present :
    (d : Dict ℕ) (s : String) (m : ℕ) → is_some (get d s) ≡ true → length (put d s m) ≡ length d
unfolding put get
length-put_present [] s m h = cc
length-put_present ((k, l) ∷ d) s m h = ground (arith, length-put_present d s m)
