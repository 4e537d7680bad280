-- ===== src/Schedule/Order.antt =====
-- `topological_sort_schedule_jobs` of src/elt_pipeline/shared/scheduler.py.
pub mod Edges
pub mod Tables
pub mod Links
pub mod Loop
pub mod Correct
pub mod Sizes
use elt_pipeline.Prelude.{
  ℕ, zero, suc, String, Bool, true, false, Option, none, some, List, [], ◌∷◌, ◌++◌, map, ◌+◌, ◌-◌,
  leb, eqb, if◌then◌else◌, filter, sort, length, Attempt, ok, raise, ◌>>=◌,
}
use elt_pipeline.Prelude.Dict.{Dict, get, put, get_or, or_else, keys}
use elt_pipeline.Schedule.Model.{ScheduledCliJob, PlanError, key_error, out_of_fuel}

-- `{job.name: i for i, job in enumerate(jobs)}`
index_from : ℕ → Dict ℕ → List ScheduledCliJob → Dict ℕ
index_from i d [] = d
index_from i d (job ∷ jobs) = index_from (i + 1) (put d job.name i) jobs

unfoldable pub order_index : List ScheduledCliJob → Dict ℕ
unfolding index_from
order_index jobs = index_from 0 [] jobs

-- `{job.name: v for job in jobs}`
module _ {V : Type 0} (v : V) where
  unfoldable pub constant_from : Dict V → List ScheduledCliJob → Dict V
  constant_from d [] = d
  constant_from d (job ∷ jobs) = constant_from (put d job.name v) jobs

-- `for _dep in job.depends_on: indegree[job.name] = indegree.get(job.name, 0) + 1`
pub count_deps : String → Dict ℕ → List String → Dict ℕ
count_deps name d [] = d
count_deps name d (dep ∷ deps) = count_deps name (put d name (get_or d name 0 + 1)) deps

pub count_jobs : Dict ℕ → List ScheduledCliJob → Dict ℕ
unfolding count_deps
count_jobs d [] = d
count_jobs d (job ∷ jobs) = count_jobs (count_deps job.name d job.depends_on) jobs

unfoldable pub indegrees : List ScheduledCliJob → Dict ℕ
unfolding count_jobs constant_from
indegrees jobs = count_jobs (constant_from 0 [] jobs) jobs

-- `successors_of[dep].append(job.name)`, which raises on a name that no job has.
append_at : Dict (List String) → String → String → Attempt PlanError (Dict (List String))
append_at d dep name = elim (get d dep) [
  | none ↦ raise (key_error dep)
  | some ns ↦ ok (put d dep (ns ++ name ∷ []))
]

pub link_deps : String → Dict (List String) → List String → Attempt PlanError (Dict (List String))
unfolding append_at
link_deps name d [] = ok d
link_deps name d (dep ∷ deps) = append_at d dep name >>= λ d'. link_deps name d' deps

link_jobs : Dict (List String) → List ScheduledCliJob → Attempt PlanError (Dict (List String))
unfolding link_deps
link_jobs d [] = ok d
link_jobs d (job ∷ jobs) = link_deps job.name d job.depends_on >>= λ d'. link_jobs d' jobs

-- `for name in successors_of: successors_of[name].sort(key=…)`
sort_entries : (String → String → Bool) → Dict (List String) → Dict (List String)
sort_entries le [] = []
sort_entries le ((k, ns) ∷ d) = (k, sort le ns) ∷ sort_entries le d

-- The key `order_index[n]` of the two sorts; each name that is sorted is a key.
unfoldable pub by_index : List ScheduledCliJob → String → String → Bool
unfolding order_index
by_index jobs a b = leb (get_or (order_index jobs) a 0) (get_or (order_index jobs) b 0)

unfoldable pub successors : List ScheduledCliJob → Attempt PlanError (Dict (List String))
unfolding link_jobs sort_entries constant_from
successors jobs =
    link_jobs (constant_from [] [] jobs) jobs >>= λ d. ok (sort_entries (by_index jobs) d)

-- The names whose degree is 0, in the order of the dictionary.
pub zero_names : Dict ℕ → List String
zero_names [] = []
zero_names ((k, zero) ∷ d) = k ∷ zero_names d
zero_names ((k, suc m) ∷ d) = zero_names d

unfoldable pub initial_queue : List ScheduledCliJob → List String
unfolding zero_names
initial_queue jobs = sort (by_index jobs) (zero_names (indegrees jobs))

pub record Kahn : Type 0 where
  pub indegree : Dict ℕ
  pub queue : List String
  pub ordered : List String

-- A degree of 0 would become -1 and never be 0 again; it is left as it is.
relax_at : Option ℕ → Kahn → String → Attempt PlanError Kahn
relax_at none k s = raise (key_error s)
relax_at (some zero) k s = ok k
relax_at (some (suc m)) k s = ok (record k {
  indegree = put k.indegree s m;
  queue = if eqb m 0 then k.queue ++ s ∷ [] else k.queue;
})

-- `for successor in successors_of[name]: …`
unfoldable pub relax : Kahn → List String → Attempt PlanError Kahn
unfolding relax_at
relax k [] = ok k
relax k (s ∷ ss) = relax_at (get k.indegree s) k s >>= λ k'. relax k' ss

-- One round of `while queue`, after `name` left the queue.
unfoldable pub visit : Dict (List String) → Kahn → String → List String → Attempt PlanError Kahn
unfolding relax
visit succs k name rest = elim (get succs name) [
  | none ↦ raise (key_error name)
  | some ss ↦ relax (record k { queue = rest; ordered = k.ordered ++ name ∷ [] }) ss
]

unfoldable pub drain : ℕ → Dict (List String) → Kahn → Attempt PlanError Kahn
unfolding visit
drain zero succs k = elim k.queue [ [] ↦ ok k | _ ∷ _ ↦ raise out_of_fuel ]
drain (suc fuel) succs k = elim k.queue [
  | [] ↦ ok k
  | name ∷ rest ↦ visit succs k name rest >>= λ k'. drain fuel succs k'
]

-- A round for each key of `indegree` is enough fuel.
unfoldable pub topological_sort_schedule_jobs :
    List ScheduledCliJob → Attempt PlanError (List String)
unfolding successors drain initial_queue indegrees
topological_sort_schedule_jobs jobs = successors jobs >>= λ succs.
    drain (length (indegrees jobs)) succs
      (record { indegree = indegrees jobs; queue = initial_queue jobs; ordered = [] })
    >>= λ k. ok k.ordered
