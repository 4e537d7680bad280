-- ===== src/Sql/Graph/Examples.antt =====
-- Two models, one of which depends on the other.
use elt_pipeline.Prelude.{
  String, true, List, [], ◌∷◌, ◌==◌, ◌≡◌, refl, sym, subst, map, Bool-cases, inl, inr, eq_iff,
  arith, ok, raise,
}
use elt_pipeline.Prelude.Names.{elem}
use elt_pipeline.Prelude.Dict.{keys}
use elt_pipeline.Sql.Graph.{
  Model, model_id, models_by_id, dependencies_of, resolve_selected_model_ids,
  normalize_dependency_reference, dependency_invalid,
}
use elt_pipeline.Sql.Graph.Pushes.{Within}
use elt_pipeline.Sql.Graph.Closure.{
  Resolvable, IsLeastAbove, resolve_selected_model_ids-IsLeastAbove,
}

abbrev orders : Model
orders = record { stage = "level3"; domain = "sales"; name = "orders"; depends_on = [] }

abbrev daily : Model
daily = record {
  stage = "level3";
  domain = "kpi";
  name = "daily";
  depends_on = " sales . orders " ∷ [];
}

abbrev other : Model
other = record {
  stage = "level4";
  domain = "kpi";
  name = "other";
  depends_on = "level3.kpi.daily" ∷ [];
}

abbrev models : List Model
models = orders ∷ daily ∷ []

program : Unit {0}
unfolding models_by_id dependencies_of resolve_selected_model_ids normalize_dependency_reference
    elem
program = tt

selects :
    resolve_selected_model_ids (orders ∷ other ∷ daily ∷ []) (other ∷ []) true
    ≡ ok ("level3.sales.orders" ∷ "level3.kpi.daily" ∷ "level4.kpi.other" ∷ [])
unfolding program
selects = refl

four_parts :
    normalize_dependency_reference "a.b.c.d" "level3" "sales" ≡ raise (dependency_invalid "a.b.c.d")
unfolding program
four_parts = refl

models-Resolvable : Resolvable (models_by_id models)
unfolding program
models-Resolvable = λ id i. elim (Bool-cases (id == "level3.sales.orders")) [
  | inl same ↦
      subst (λ x. (ds : List String) × (dependencies_of (models_by_id models) x ≡ ok ds))
        (sym ((eq_iff id "level3.sales.orders").0 same)) ([], refl)
  | inr apart ↦
      subst (λ x. (ds : List String) × (dependencies_of (models_by_id models) x ≡ ok ds))
        (sym ((eq_iff id "level3.kpi.daily").0 (ground (arith, i, apart))))
        ("level3.sales.orders" ∷ [], refl)
]

daily-Within : Within (map model_id (daily ∷ [])) (keys (models_by_id models))
unfolding program
daily-Within = λ x i. ground (arith, i)

resolve_selected_model_ids-IsLeastAbove_example :
    (ids : List String) × (resolve_selected_model_ids models (daily ∷ []) true ≡ ok ids)
    × IsLeastAbove (models_by_id models) (map model_id (daily ∷ [])) ids
resolve_selected_model_ids-IsLeastAbove_example =
    resolve_selected_model_ids-IsLeastAbove models (daily ∷ []) models-Resolvable daily-Within
