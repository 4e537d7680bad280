-- ===== src/Sql/Graph.antt =====
-- The references between SQL models and the selection with its dependencies, of
-- src/elt_pipeline/sql/graph.py; the sort is Sql/Graph/Sort.antt.
pub mod Pushes
pub mod Sort
pub mod Closure
mod Examples
use elt_pipeline.Prelude.{
  ℕ, zero, suc, ◌+◌, String, Bool, true, false, not, Option, none, some, List, [], ◌∷◌, ◌==◌, ◌&&◌,
  eqb, filter, map, length, if◌then◌else◌, Attempt, ok, raise, ◌>>=◌,
}
use Prim.Native.Char.{code}
use elt_pipeline.Prelude.Text.{strip, concat}
use elt_pipeline.Prelude.Names.{elem}
use elt_pipeline.Prelude.Dict.{Dict, get, put, keys}

-- The PipelineErrors, the KeyError of a model that is not there, and the end of the rounds.
pub data GraphError : Type 0 where
  dependency_missing : String → String → GraphError
  dependency_invalid : String → GraphError
  key_error : String → GraphError
  dependency_cycle : List String → GraphError
  out_of_rounds : GraphError

-- DiscoveredSqlModel, with what its manifest says of it.
pub record Model : Type 0 where
  pub stage : String
  pub domain : String
  pub name : String
  pub depends_on : List String

abbrev dotted : String → String → String
dotted s t = concat s (concat "." t)

abbrev pub model_id : Model → String
model_id m = dotted (Model.stage m) (dotted (Model.domain m) (Model.name m))

-- `s.split(".")`: the first part, and those after it.
abbrev split_dots : String → String × List String
split_dots String.[] = ("", [])
split_dots (String.◌∷◌ c s) =
    let later = split_dots s in
    if eqb (code c) 46 then ("", later.0 ∷ later.1) else (String.◌∷◌ c later.0, later.1)

-- `[part.strip() for part in s.split(".") if part.strip()]`
unfoldable pub reference_parts : String → List String
unfolding strip
reference_parts s =
    let parts = split_dots s in filter (λ part. not (part == "")) (map strip (parts.0 ∷ parts.1))

abbrev pub from_parts : String → String → String → List String → Attempt GraphError String
from_parts reference stage domain [] = raise (dependency_invalid reference)
from_parts reference stage domain (a ∷ []) = ok (dotted stage (dotted domain a))
from_parts reference stage domain (a ∷ b ∷ []) = ok (dotted stage (dotted a b))
from_parts reference stage domain (a ∷ b ∷ c ∷ []) = ok (dotted a (dotted b c))
from_parts reference stage domain (a ∷ b ∷ c ∷ d ∷ rest) = raise (dependency_invalid reference)

unfoldable pub normalize_dependency_reference : String → String → String → Attempt GraphError String
unfolding reference_parts
normalize_dependency_reference reference stage domain =
    from_parts reference stage domain (reference_parts reference)

-- `{model.model_id: model for model in models}`
abbrev by_id_from : Dict Model → List Model → Dict Model
by_id_from d [] = d
by_id_from d (m ∷ ms) = by_id_from (put d (model_id m) m) ms

unfoldable pub models_by_id : List Model → Dict Model
unfolding put
models_by_id models = by_id_from [] models

abbrev pub known_id : Dict Model → String → String → String → Attempt GraphError String
known_id by_id owner reference id =
    if elem id (keys by_id) then ok id else raise (dependency_missing owner reference)

unfoldable pub resolve_references :
    Dict Model → Model → List String → Attempt GraphError (List String)
unfolding normalize_dependency_reference elem
resolve_references by_id m [] = ok []
resolve_references by_id m (r ∷ rs) =
    normalize_dependency_reference r (Model.stage m) (Model.domain m) >>= λ id.
    known_id by_id (model_id m) r id >>= λ known.
    resolve_references by_id m rs >>= λ rest. ok (known ∷ rest)

unfoldable pub resolve_dependency_ids : Dict Model → Model → Attempt GraphError (List String)
unfolding resolve_references
resolve_dependency_ids by_id m = resolve_references by_id m (Model.depends_on m)

abbrev dependencies_at : Dict Model → String → Option Model → Attempt GraphError (List String)
dependencies_at by_id id none = raise (key_error id)
dependencies_at by_id id (some m) = resolve_dependency_ids by_id m

-- The dependencies of the model with an id.
unfoldable pub dependencies_of : Dict Model → String → Attempt GraphError (List String)
unfolding get resolve_dependency_ids
dependencies_of by_id id = dependencies_at by_id id (get by_id id)

-- The inner loop: dependencies that are new are resolved and put on the stack. The top of the stack
-- is the head of its list, and a set is the list of its elements; Python's order of a set only decides
-- which of several errors comes first.
unfoldable pub push_new : List String → List String → List String → List String × List String
unfolding elem
push_new [] stack resolved = (stack, resolved)
push_new (d ∷ ds) stack resolved =
    let skip = push_new ds stack resolved in
    let push = push_new ds (d ∷ stack) (d ∷ resolved) in if elem d resolved then skip else push

-- `while stack`, with the rounds that are left.
unfoldable pub close_over :
    ℕ → Dict Model → List String → List String → Attempt GraphError (List String)
unfolding dependencies_of push_new
close_over rounds by_id [] resolved = ok resolved
close_over zero by_id (id ∷ stack) resolved = raise out_of_rounds
close_over (suc rounds) by_id (id ∷ stack) resolved = dependencies_of by_id id >>= λ ds.
    close_over rounds by_id (push_new ds stack resolved).0 (push_new ds stack resolved).1

-- A round for each selected model, and for each model that can be put on the stack.
unfoldable pub resolve_selected_model_ids :
    List Model → List Model → Bool → Attempt GraphError (List String)
unfolding close_over models_by_id
resolve_selected_model_ids all_models selected_models false = ok (map model_id selected_models)
resolve_selected_model_ids all_models selected_models true =
    let selected_ids = map model_id selected_models in
    close_over (length selected_ids + length (keys (models_by_id all_models)))
      (models_by_id all_models) selected_ids selected_ids
