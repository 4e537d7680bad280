-- ===== src/Sql/Graph/Sort/Examples.antt =====
-- The sort of two models, of a cycle, and of a model that stands twice.
use elt_pipeline.Prelude.{
  ℕ, ◌≤◌, ◌<◌, String, List, [], ◌∷◌, ◌==◌, ◌≡◌, ◌⊎◌, refl, sym, ap, ◌∙◌, subst, map, inl, inr, ok,
  raise, if◌then◌else◌, arith, eq_iff, Bool-cases, true,
}
use elt_pipeline.Prelude.Names.{elem, count}
use elt_pipeline.Prelude.Dict.{keys}
use elt_pipeline.Sql.Graph.{Model, model_id, models_by_id, dependency_cycle, resolve_dependency_ids}
use elt_pipeline.Sql.Graph.Sort.{topologically_sort_sql_models}
use elt_pipeline.Sql.Graph.Sort.Built.{DependsOn, ok_of, ok_names}
use elt_pipeline.Sql.Graph.Sort.Correct.{IsSorted, topologically_sort_sql_models_sound}
use elt_pipeline.Sql.Graph.Sort.Cycles.{
  IsCyclic, Resolves, topologically_sort_sql_models_ends, topologically_sort_sql_models_cycle,
  topologically_sort_sql_models_complete,
}

abbrev model : String → List String → Model
model name depends_on = record {
  stage = "level3";
  domain = "kpi";
  name = name;
  depends_on = depends_on;
}

abbrev base : Model
base = model "base" []

abbrev top : Model
top = model "top" ("base" ∷ [])

abbrev pair : List Model
pair = top ∷ base ∷ []

program : Unit {0}
unfolding topologically_sort_sql_models models_by_id resolve_dependency_ids elem count
program = tt

sorts : topologically_sort_sql_models pair ≡ ok (base ∷ top ∷ [])
unfolding program
sorts = refl

cycle :
    topologically_sort_sql_models (model "a" ("b" ∷ []) ∷ model "b" ("a" ∷ []) ∷ base ∷ [])
    ≡ raise (dependency_cycle ("level3.kpi.a" ∷ "level3.kpi.b" ∷ []))
unfolding program
cycle = refl

-- A model that stands twice is refused as a cycle of no models.
twice : topologically_sort_sql_models (base ∷ base ∷ []) ≡ raise (dependency_cycle [])
unfolding program
twice = refl

topologically_sort_sql_models_sound_example : IsSorted pair (base ∷ top ∷ [])
topologically_sort_sql_models_sound_example =
    topologically_sort_sql_models_sound pair (base ∷ top ∷ []) sorts

pair-Resolves : Resolves pair
unfolding program
pair-Resolves m (inl same) =
    subst (λ k. (ds : List String) × (resolve_dependency_ids (models_by_id pair) k ≡ ok ds))
      (sym same) ("level3.kpi.base" ∷ [], refl)
pair-Resolves m (inr (inl same)) =
    subst (λ k. (ds : List String) × (resolve_dependency_ids (models_by_id pair) k ≡ ok ds))
      (sym same) ([], refl)
pair-Resolves m (inr (inr impossible)) = absurd impossible

topologically_sort_sql_models_ends_example :
    ((result : List Model) × (topologically_sort_sql_models pair ≡ ok result))
    ⊎ ((named : List String) × (topologically_sort_sql_models pair ≡ raise (dependency_cycle named))
        × IsCyclic pair named)
topologically_sort_sql_models_ends_example = topologically_sort_sql_models_ends pair pair-Resolves

-- A model that depends on itself.
abbrev loop : List Model
loop = model "loop" ("loop" ∷ []) ∷ []

loop-Resolves : Resolves loop
unfolding program
loop-Resolves m (inl same) =
    subst (λ k. (ds : List String) × (resolve_dependency_ids (models_by_id loop) k ≡ ok ds))
      (sym same) ("level3.kpi.loop" ∷ [], refl)
loop-Resolves m (inr impossible) = absurd impossible

loop_once : (n : String) → count n (map model_id loop) ≤ 1
unfolding count
loop_once n = elim (Bool-cases (n == "level3.kpi.loop")) [
  | inl same ↦ rw same (omega arith)
  | inr apart ↦ rw apart (omega arith)
]

loop_raises : topologically_sort_sql_models loop ≡ raise (dependency_cycle ("level3.kpi.loop" ∷ []))
unfolding program
loop_raises = refl

topologically_sort_sql_models_cycle_example :
    ((n : String) × (elem n ("level3.kpi.loop" ∷ []) ≡ true))
    × IsCyclic loop ("level3.kpi.loop" ∷ [])
topologically_sort_sql_models_cycle_example =
    topologically_sort_sql_models_cycle loop loop-Resolves loop_once ("level3.kpi.loop" ∷ [])
      loop_raises

abbrev rank : String → ℕ
rank id = if id == "level3.kpi.top" then 1 else 0

pair_once : (n : String) → count n (map model_id pair) ≤ 1
unfolding count
pair_once n = elim (Bool-cases (n == "level3.kpi.top")) [
  | inl same ↦ rw ((eq_iff n "level3.kpi.top").0 same) (omega arith)
  | inr apart ↦ rw apart (elim (Bool-cases (n == "level3.kpi.base")) [
    | inl same ↦ rw same (omega arith)
    | inr other ↦ rw other (omega arith)
  ])
]

only : (d x : String) → elem d (x ∷ []) ≡ true → x ≡ d
unfolding elem
only d x i = sym ((eq_iff d x).0 (ground (arith, i)))

nothing : (d : String) → elem d [] ≡ true → ⊥
unfolding elem
nothing d i = cc

pair_ranked :
    (n d : String)
    → DependsOn (models_by_id pair) (keys (models_by_id pair)) pair n d
    → rank d < rank n
unfolding program
pair_ranked n d (m, ds, inl same, named, resolves, listed) =
    let at : ok_of ds ≡ ok_of ("level3.kpi.base" ∷ []) =
      sym (subst (λ k. resolve_dependency_ids (models_by_id pair) k ≡ ok ds) same resolves) in
    let d_base = only d "level3.kpi.base" (ap (elem d) (sym (ok_names at)) ∙ listed) in
    let n_top : model_id top ≡ n = ap model_id (sym same) ∙ named in
    subst (λ x. rank x < rank n) d_base
      (subst (λ y. rank "level3.kpi.base" < rank y) n_top (omega arith))
pair_ranked n d (m, ds, inr (inl same), named, resolves, listed) =
    let at : ok_of ds ≡ ok_of [] =
      sym (subst (λ k. resolve_dependency_ids (models_by_id pair) k ≡ ok ds) same resolves) in
    absurd (nothing d (ap (elem d) (sym (ok_names at)) ∙ listed))
pair_ranked n d (m, ds, inr (inr impossible), named, resolves, listed) = absurd impossible

topologically_sort_sql_models_complete_example :
    (result : List Model) × (topologically_sort_sql_models pair ≡ ok result) × IsSorted pair result
topologically_sort_sql_models_complete_example =
    topologically_sort_sql_models_complete pair rank pair-Resolves pair_once pair_ranked
