-- ===== src/Normalize/Planner/Errors.antt =====
-- Which errors the planner raises.
use elt_pipeline.Prelude.{
  String, List, [], ◌∷◌, ◌++◌, ◌≡◌, sym, ◌∙◌, subst, Attempt, ok, raise, ◌>>=◌,
}
use elt_pipeline.Prelude.Dict.{Dict}
use elt_pipeline.Normalize.Identifiers.{NamingError, Policy, Given, make_table_name}
use elt_pipeline.Normalize.Plan.{
  SparkType, scalar_type, map_type, struct_type, array_type, StructFields, no_fields, struct_field,
  Schema, PlanningError, naming, conflicting_mapping, no_such_table, join_path, lift_naming,
}
use elt_pipeline.Normalize.Planner.{build}
use elt_pipeline.Normalize.Planner.Described.{
  tables_below, tables_below_element, tables_below_fields, element_of, described,
}
use elt_pipeline.Normalize.Planner.Walk.{build-described}

-- An error of the naming policy.
abbrev pub IsNaming : PlanningError → Type 0
IsNaming (naming e) = Unit
IsNaming (conflicting_mapping path found name) = ⊥
IsNaming (no_such_table i) = ⊥

abbrev OnlyNaming : {A : Type 0} → Attempt PlanningError A → Type 0
OnlyNaming (raise e) = IsNaming e
OnlyNaming (ok a) = Unit

only_chain :
    {A B : Type 0} (first : Attempt PlanningError A) (next : A → Attempt PlanningError B)
    → OnlyNaming first
    → ((a : A) → OnlyNaming (next a))
    → OnlyNaming (first >>= next)
only_chain (raise e) next h k = h
only_chain (ok a) next h k = k a

only_lifted : (r : Attempt NamingError Given) → OnlyNaming (lift_naming r)
only_lifted (raise e) = tt
only_lifted (ok g) = tt

module _ (p : Policy) (value_column entity : String) where
  mutual
    unfolding tables_below

    below_errors :
        (type : SparkType) (parent path : String) (segments : List String) (names : Dict String)
        → OnlyNaming (tables_below p value_column entity type parent path segments names)
    below_errors scalar_type parent path segments names = tt
    below_errors map_type parent path segments names = tt
    below_errors (struct_type inner) parent path segments names =
        below_fields_errors inner parent path segments names
    below_errors (array_type element) parent path segments names =
        only_chain (lift_naming (make_table_name p (entity ∷ segments) path names)) _
          (only_lifted (make_table_name p (entity ∷ segments) path names))
          (λ g.
            only_chain (tables_below_element p value_column entity element g.1 path g.0) _
              (below_element_errors element g.1 path g.0) (λ f. tt))

    below_element_errors :
        (element : SparkType) (parent path : String) (names : Dict String)
        → OnlyNaming (tables_below_element p value_column entity element parent path names)
    below_element_errors scalar_type parent path names = tt
    below_element_errors map_type parent path names = tt
    below_element_errors (struct_type inner) parent path names =
        below_fields_errors inner parent path [] names
    below_element_errors (array_type element) parent path names = tt

    below_fields_errors :
        (inner : StructFields) (parent path : String) (segments : List String) (names : Dict String)
        → OnlyNaming (tables_below_fields p value_column entity inner parent path segments names)
    below_fields_errors no_fields parent path segments names = tt
    below_fields_errors (struct_field name type rest) parent path segments names =
        only_chain
          (tables_below p value_column entity type parent (join_path path name)
            (segments ++ name ∷ []) names)
          _ (below_errors type parent (join_path path name) (segments ++ name ∷ []) names)
          (λ f.
            only_chain (tables_below_fields p value_column entity rest parent path segments f.1) _
              (below_fields_errors rest parent path segments f.1) (λ g. tt))

  described_errors : (schema : Schema) → OnlyNaming (described p value_column entity schema)
  unfolding described
  described_errors schema =
      only_chain (lift_naming (make_table_name p (entity ∷ []) "$" [])) _
        (only_lifted (make_table_name p (entity ∷ []) "$" []))
        (λ g.
          only_chain (tables_below_element p value_column entity (element_of schema) g.1 "$" g.0) _
            (below_element_errors (element_of schema) g.1 "$" g.0) (λ f. tt))

  -- An error of the planner is one of the naming policy: a conflict of columns is never raised, and
  -- no frame points to a table that is not there.
  pub build_errors :
      (schema : Schema) (e : PlanningError)
      → build p value_column entity schema ≡ raise e
      → IsNaming e
  build_errors schema e h =
      subst OnlyNaming (sym (build-described p value_column entity schema) ∙ h)
        (described_errors schema)
