-- ===== src/Sql/Graph/Sort.antt =====
-- `topologically_sort_sql_models` of src/elt_pipeline/sql/graph.py. A set is the list of its elements.
pub mod Counts
pub mod Rounds
mod Sets
pub mod Built
pub mod Models
pub mod Correct
pub mod Cycles
mod Examples
pub mod Loop
use elt_pipeline.Prelude.{
  ℕ, zero, suc, String, Bool, true, false, not, Option, none, some, List, [], ◌∷◌, ◌++◌, ◌==◌, eqb,
  filter, length, is_empty, if◌then◌else◌, Attempt, ok, raise, ◌>>=◌,
}
use elt_pipeline.Prelude.Names.{elem, add, sorted}
use elt_pipeline.Prelude.Dict.{Dict, get, put, get_or, keys}
use elt_pipeline.Sql.Graph.{
  GraphError, key_error, dependency_cycle, out_of_rounds, Model, model_id, models_by_id,
  resolve_dependency_ids,
}

-- `inbound_edges` and `outgoing_edges`.
pub record Edges : Type 0 where
  pub inbound : Dict (List String)
  pub outgoing : Dict (List String)

-- `{model_id: set() for model_id in models_by_id}`
abbrev pub empty_sets : List String → Dict (List String)
empty_sets [] = []
empty_sets (id ∷ ids) = (id, []) ∷ empty_sets ids

-- The two `add`s of an edge: each model has a set of inbound edges, and the outgoing ones are a
-- `defaultdict(set)`.
abbrev pub connect : String → String → Edges → Edges
connect id dependency_id edges = record {
  inbound = put (Edges.inbound edges) id (add dependency_id (get_or (Edges.inbound edges) id []));
  outgoing =
      put (Edges.outgoing edges) dependency_id
        (add id (get_or (Edges.outgoing edges) dependency_id []));
}

unfoldable pub connect_all : String → List String → Edges → Edges
unfolding put get_or add
connect_all id [] edges = edges
connect_all id (d ∷ ds) edges = connect_all id ds (connect id d edges)

unfoldable pub edges_from : Dict Model → List Model → Edges → Attempt GraphError Edges
unfolding connect_all resolve_dependency_ids
edges_from by_id [] edges = ok edges
edges_from by_id (m ∷ ms) edges =
    resolve_dependency_ids by_id m >>= λ ds. edges_from by_id ms (connect_all (model_id m) ds edges)

unfoldable pub build_edges : List Model → Attempt GraphError Edges
unfolding edges_from models_by_id
build_edges models =
    edges_from (models_by_id models) models
      (record { inbound = empty_sets (keys (models_by_id models)); outgoing = [] })

-- The variables of the loop.
pub record Sorting : Type 0 where
  pub remaining_inbound : Dict (List String)
  pub ready : List String
  pub ordered : List String

-- `s.discard(n)`
abbrev pub discard : String → List String → List String
discard n s = filter (λ x. not (x == n)) s

-- `for child_id in sorted(…)`; each child has a set of inbound edges.
unfoldable pub visit_children : String → List String → Sorting → Sorting
unfolding put get_or
visit_children id [] s = s
visit_children id (c ∷ cs) s =
    let left = discard id (get_or (Sorting.remaining_inbound s) c []) in
    visit_children id cs (record s {
      remaining_inbound = put (Sorting.remaining_inbound s) c left;
      ready = if is_empty left then Sorting.ready s ++ c ∷ [] else Sorting.ready s;
    })

-- One round, after `model_id` left the queue.
abbrev pub place : Dict (List String) → String → List String → Sorting → Sorting
place outgoing id rest s =
    visit_children id (sorted (get_or outgoing id []))
      (record s { ready = rest; ordered = Sorting.ordered s ++ id ∷ [] })

-- `while ready`, with the rounds that are left.
unfoldable pub sort_ready : ℕ → Dict (List String) → Sorting → Attempt GraphError Sorting
unfolding visit_children sorted
sort_ready zero outgoing s = elim (Sorting.ready s) [ [] ↦ ok s | _ ∷ _ ↦ raise out_of_rounds ]
sort_ready (suc rounds) outgoing s = elim (Sorting.ready s) [
  | [] ↦ ok s
  | id ∷ rest ↦ sort_ready rounds outgoing (place outgoing id rest s)
]

-- The ids whose set is empty, or is not.
abbrev pub with_sets : Bool → Dict (List String) → List String
with_sets empty [] = []
with_sets true ((id, set) ∷ d) =
    let rest = with_sets true d in if is_empty set then id ∷ rest else rest
with_sets false ((id, set) ∷ d) =
    let rest = with_sets false d in if is_empty set then rest else id ∷ rest

abbrev pub start : Dict (List String) → Sorting
start inbound = record {
  remaining_inbound = inbound;
  ready = sorted (with_sets true inbound);
  ordered = [];
}

-- `[models_by_id[model_id] for model_id in ordered_model_ids]`
abbrev look_up : String → Option Model → Attempt GraphError Model
look_up id none = raise (key_error id)
look_up id (some m) = ok m

unfoldable pub models_of : Dict Model → List String → Attempt GraphError (List Model)
unfolding get
models_of by_id [] = ok []
models_of by_id (id ∷ ids) =
    look_up id (get by_id id) >>= λ m. models_of by_id ids >>= λ ms. ok (m ∷ ms)

-- The check for a cycle.
unfoldable pub finish : List Model → Sorting → Attempt GraphError (List Model)
unfolding models_of models_by_id sorted
finish models s =
    let result = models_of (models_by_id models) (Sorting.ordered s) in
    if eqb (length (Sorting.ordered s)) (length models)
    then result
    else raise (dependency_cycle (sorted (with_sets false (Sorting.remaining_inbound s))))

-- Each model is placed once: a round for each is enough.
unfoldable pub topologically_sort_sql_models : List Model → Attempt GraphError (List Model)
unfolding build_edges sort_ready finish
topologically_sort_sql_models models = build_edges models >>= λ edges.
    sort_ready (length (keys (models_by_id models))) (Edges.outgoing edges)
      (start (Edges.inbound edges))
    >>= λ s. finish models s
