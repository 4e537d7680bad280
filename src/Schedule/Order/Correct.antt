-- ===== src/Schedule/Order/Correct.antt =====
-- What the sort returns when every dependency is a job.
use elt_pipeline.Prelude.{
  ℕ, zero, suc, String, ◌≡◌, refl, true, false, List, [], ◌∷◌, ◌++◌, ◌<◌, ◌==◌, ◌≤◌, eq_iff, ltb,
  length, arith, ok, inl, inr, Bool-cases, All, ap,
}
use mathlib.Core.List.{append-nil, append_assoc}
use elt_pipeline.Prelude.Names.{elem, count, count-of_elem, count-of_not_elem}
use elt_pipeline.Prelude.Dict.{Dict, get, get_or, IsUnique}
use elt_pipeline.Schedule.Model.{ScheduledCliJob, bit, names}
use elt_pipeline.Schedule.Order.{Kahn, topological_sort_schedule_jobs, indegrees}
use elt_pipeline.Schedule.Order.Edges.{missing, edge_count, open_deps}
use elt_pipeline.Schedule.Order.Tables.{positive}
use elt_pipeline.Schedule.Order.Links.{DepsAll, successors_lem}
use elt_pipeline.Schedule.Order.Loop.{Inv, Respects, start, start-Inv, drain_lem, degree}

abbrev pub IsKnown : List ScheduledCliJob → Type 0
IsKnown jobs = DepsAll (λ dep. elem dep (names jobs)) jobs

-- Every dependency of the jobs named `n` is in `done`.
abbrev pub DepsIn : List String → String → List ScheduledCliJob → Type 0
DepsIn done n =
    All
      (λ job. job.name ≡ n → (dep : String) → elem dep job.depends_on ≡ true → elem dep done ≡ true)

missing_none :
    (done deps : List String) (d : String)
    → missing done deps ≡ 0
    → elem d deps ≡ true
    → elem d done ≡ true
unfolding missing elem
missing_none done [] d h i = cc
missing_none done (e ∷ deps) d h i = ground (arith, missing_none done deps d, eq_iff d e)

open_deps_none :
    (done : List String) (n : String) (jobs : List ScheduledCliJob)
    → open_deps done n jobs ≡ 0
    → DepsIn done n jobs
unfolding open_deps
open_deps_none done n [] h = tt
open_deps_none done n (job ∷ jobs) h = (
  λ e d i. missing_none done job.depends_on d (ground (arith, (eq_iff job.name n).1 e)) i,
  open_deps_none done n jobs (omega arith),
)

missing_some :
    (done deps : List String)
    → 0 < missing done deps
    → (d : String) × (elem d deps ≡ true) × (elem d done ≡ false)
unfolding missing elem
missing_some done [] h = absurd (omega arith)
missing_some done (e ∷ deps) h = elim (Bool-cases (elem e done)) [
  | inr open_dep ↦ (e, ground (arith, eq_iff e e), open_dep)
  | inl closed ↦ let (d, i, o) = missing_some done deps (ground arith) in (d, ground arith, o)
]

-- An open name waits for a dependency that is not placed.
pub open_deps_some :
    (done : List String) (n : String) (jobs : List ScheduledCliJob)
    → 0 < open_deps done n jobs
    → (d : String) × (0 < edge_count d n jobs) × (elem d done ≡ false)
unfolding open_deps edge_count
open_deps_some done n [] h = absurd (omega arith)
open_deps_some done n (job ∷ jobs) h = elim (Bool-cases (ltb 0 (open_deps done n jobs))) [
  | inl later ↦ let (d, e, o) = open_deps_some done n jobs (ground arith) in (d, omega arith, o)
  | inr here ↦
      let (d, i, o) = missing_some done job.depends_on (ground arith) in
      (d, ground (arith, count-of_elem d job.depends_on), o)
]

Respects-split :
    (jobs : List ScheduledCliJob) (seen xs ys : List String) (n : String)
    → Respects jobs seen (xs ++ n ∷ ys)
    → open_deps (seen ++ xs) n jobs ≡ 0
Respects-split jobs seen [] ys n r = rw append-nil (r.0)
Respects-split jobs seen (x ∷ xs) ys n r =
    rw append_assoc at (Respects-split jobs (seen ++ x ∷ []) xs ys n r.1)

-- Entries of the table of degrees.
degree-of_positive : (d : Dict ℕ) (n : String) → positive d ≡ 0 → get_or d n 0 ≡ 0
unfolding positive get_or get
degree-of_positive [] n h = refl
degree-of_positive ((k, zero) ∷ d) n h = ground (arith, degree-of_positive d n)
degree-of_positive ((k, suc m) ∷ d) n h = absurd (omega arith)

positive-of_degrees : (d : Dict ℕ) → IsUnique d → ((n : String) → get_or d n 0 ≡ 0) → positive d ≡ 0
unfolding positive get_or get
positive-of_degrees [] u h = refl
positive-of_degrees ((k, zero) ∷ d) u h = positive-of_degrees d u.1 (λ n.
    elim (Bool-cases (k == n)) [
      | inl same ↦ ground (arith, u.0, eq_iff k n)
      | inr other ↦ rw other at (h n)
    ])
positive-of_degrees ((k, suc m) ∷ d) u h = absurd (ground (arith, h k, eq_iff k k))

-- What holds of the order that the sort returns.
pub record IsOrder (jobs : List ScheduledCliJob) (order : List String) : Type 0 where
  pub once : (n : String) → count n order ≤ bit (elem n (names jobs))
  pub first : (xs ys : List String) (n : String) → order ≡ xs ++ n ∷ ys → DepsIn xs n jobs
  pub stuck :
      (n : String)
      → elem n (names jobs) ≡ true
      → elem n order ≡ false
      → (d : String) × (0 < edge_count d n jobs) × (elem d order ≡ false)
  pub short : length order ≤ length (indegrees jobs)
  pub full :
      length order ≡ length (indegrees jobs)
      → (n : String) → count n order ≡ bit (elem n (names jobs))
  pub total :
      ((n : String) → elem n (names jobs) ≡ true → elem n order ≡ true)
      → length order ≡ length (indegrees jobs)

final-IsOrder :
    (jobs : List ScheduledCliJob) (k : Kahn)
    → Inv jobs (length (indegrees jobs)) [] k
    → k.queue ≡ []
    → IsOrder jobs k.ordered
unfolding count
final-IsOrder jobs k h e = record {
  once = λ n. omega (arith, h.placed n);
  first = λ xs ys n s. open_deps_none xs n jobs (Respects-split jobs [] xs ys n (rw s at h.before));
  stuck = λ n i o.
      open_deps_some k.ordered n jobs
        (ground (arith, h.placed n, h.degrees n, count-of_not_elem n k.ordered o, ap (count n) e));
  short = omega (arith, h.work);
  full = λ same n. omega (
    arith,
    h.placed n,
    ap (count n) e,
    ap bit (unpositive n (degree-of_positive k.indegree n (omega (arith, h.work)))),
  );
  total = λ all. omega (
    arith,
    h.work,
    ap length e,
    positive-of_degrees k.indegree h.unique
        (λ n. ground (arith, h.placed n, all n, count-of_elem n k.ordered, ap (count n) e)),
  );
}
  where
    unpositive : (n : String) → degree k n ≡ 0 → ltb 0 (degree k n) ≡ false
    unpositive n z = ground arith

-- When every dependency is a job, the sort returns: it never looks up a missing key.
pub topological_sort_returns :
    (jobs : List ScheduledCliJob)
    → IsKnown jobs
    → (order : List String) × (topological_sort_schedule_jobs jobs ≡ ok order) × IsOrder jobs order
unfolding topological_sort_schedule_jobs
topological_sort_returns jobs known =
    let (succs, built, linked) = successors_lem jobs known in
    let (k, ends, inv, empty) =
      drain_lem jobs succs linked (length (indegrees jobs)) (length (indegrees jobs)) (start jobs)
        (start-Inv jobs) (omega arith) in
    (k.ordered, rw built (rw ends), final-IsOrder jobs k inv empty)
