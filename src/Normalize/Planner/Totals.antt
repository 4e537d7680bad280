-- ===== src/Normalize/Planner/Totals.antt =====
-- How many tables and columns a plan has.
use elt_pipeline.Prelude.{
  ℕ, ◌+◌, String, List, [], ◌∷◌, ◌++◌, ◌≡◌, refl, sym, ◌∙◌, subst, map, length, length-append,
  arith, ok, >>=_returns,
}
use elt_pipeline.Prelude.Dict.{Dict}
use elt_pipeline.Normalize.Identifiers.{Policy, make_table_name}
use elt_pipeline.Normalize.Plan.{
  SparkType, scalar_type, map_type, struct_type, array_type, StructFields, no_fields, struct_field,
  Schema, PlannedTable, join_path, lift_naming,
}
use elt_pipeline.Normalize.Planner.{build}
use elt_pipeline.Normalize.Planner.Described.{
  Column, mapping, Below, columns_of, columns_of_fields, columns_of_element, tables_below,
  tables_below_element, tables_below_fields, element_of, described,
}
use elt_pipeline.Normalize.Planner.Names.{ok_eq}
use elt_pipeline.Normalize.Planner.Walk.{build-described}

-- The leaves that stand directly in a record, those of all records, and the arrays that become tables.
mutual
  pub own_leaves : SparkType → ℕ
  own_leaves scalar_type = 1
  own_leaves map_type = 1
  own_leaves (struct_type inner) = own_leaves_fields inner
  own_leaves (array_type element) = 0

  pub own_leaves_fields : StructFields → ℕ
  own_leaves_fields no_fields = 0
  own_leaves_fields (struct_field name type rest) = own_leaves type + own_leaves_fields rest

-- An array with no structs in it has one leaf, its elements.
mutual
  pub leaves : SparkType → ℕ
  leaves scalar_type = 1
  leaves map_type = 1
  leaves (struct_type inner) = leaves_fields inner
  leaves (array_type element) = leaves_element element

  pub leaves_element : SparkType → ℕ
  leaves_element (struct_type inner) = leaves_fields inner
  leaves_element scalar_type = 1
  leaves_element map_type = 1
  leaves_element (array_type element) = 1

  pub leaves_fields : StructFields → ℕ
  leaves_fields no_fields = 0
  leaves_fields (struct_field name type rest) = leaves type + leaves_fields rest

mutual
  pub arrays : SparkType → ℕ
  arrays scalar_type = 0
  arrays map_type = 0
  arrays (struct_type inner) = arrays_fields inner
  arrays (array_type element) = 1 + arrays_element element

  pub arrays_element : SparkType → ℕ
  arrays_element (struct_type inner) = arrays_fields inner
  arrays_element scalar_type = 0
  arrays_element map_type = 0
  arrays_element (array_type element) = 0

  pub arrays_fields : StructFields → ℕ
  arrays_fields no_fields = 0
  arrays_fields (struct_field name type rest) = arrays type + arrays_fields rest

-- The columns of all tables.
pub column_count : List PlannedTable → ℕ
column_count [] = 0
column_count (t ∷ ts) = length (PlannedTable.column_mappings t) + column_count ts

column_count-append :
    (ts us : List PlannedTable) → column_count (ts ++ us) ≡ column_count ts + column_count us
unfolding column_count
column_count-append [] us = omega arith
column_count-append (t ∷ ts) us = omega (arith, column_count-append ts us)

length-map : (cs : List Column) → length (map mapping cs) ≡ length cs
length-map [] = refl
length-map (c ∷ cs) = omega (arith, length-map cs)

module _ (p : Policy) (value_column entity : String) where
  mutual
    unfolding columns_of own_leaves

    columns-own :
        (type : SparkType) (path : String) (segments : List String)
        → length (columns_of p value_column entity type path segments) ≡ own_leaves type
    columns-own scalar_type path segments = refl
    columns-own map_type path segments = refl
    columns-own (struct_type inner) path segments = columns_fields-own inner path segments
    columns-own (array_type element) path segments = refl

    columns_fields-own :
        (inner : StructFields) (path : String) (segments : List String)
        → length (columns_of_fields p value_column entity inner path segments)
          ≡ own_leaves_fields inner
    columns_fields-own no_fields path segments = refl
    columns_fields-own (struct_field name type rest) path segments = omega (
      arith,
      length-append
          (columns_of p value_column entity type (join_path path name) (segments ++ name ∷ []))
          (columns_of_fields p value_column entity rest path segments),
      columns-own type (join_path path name) (segments ++ name ∷ []),
      columns_fields-own rest path segments,
    )

  -- What a part of the schema adds: its tables, whose columns are its leaves but for those that
  -- stand in the table above.
  abbrev Adds : ℕ → ℕ → ℕ → Below → Type 0
  Adds all own inner f = (own + column_count f.0 ≡ all) × (length f.0 ≡ inner)

  mutual
    unfolding tables_below columns_of_element column_count own_leaves leaves arrays

    below-Adds :
        (type : SparkType) (parent path : String) (segments : List String) (names : Dict String)
        (f : Below)
        → tables_below p value_column entity type parent path segments names ≡ ok f
        → Adds (leaves type) (own_leaves type) (arrays type) f
    below-Adds scalar_type parent path segments names f h =
        subst (Adds 1 1 0) (ok_eq h) (refl, refl)
    below-Adds map_type parent path segments names f h = subst (Adds 1 1 0) (ok_eq h) (refl, refl)
    below-Adds (struct_type inner) parent path segments names f h =
        below_fields-Adds inner parent path segments names f h
    below-Adds (array_type element) parent path segments names f h =
        let naming =
          >>=_returns (lift_naming (make_table_name p (entity ∷ segments) path names)) _ h in
        let rest =
          >>=_returns
            (tables_below_element p value_column entity element naming.0.1 path naming.0.0) _
            naming.2 in
        let below = below_element-Adds element naming.0.1 path naming.0.0 rest.0 rest.1 in
        subst (Adds (leaves_element element) 0 (1 + arrays_element element)) (ok_eq rest.2) (
          omega (arith, below, length-map (columns_of_element p value_column entity element path)),
          omega (arith, below),
        )

    below_element-Adds :
        (element : SparkType) (parent path : String) (names : Dict String) (f : Below)
        → tables_below_element p value_column entity element parent path names ≡ ok f
        → Adds
            (leaves_element element)
            (length (columns_of_element p value_column entity element path))
            (arrays_element element)
            f
    below_element-Adds scalar_type parent path names f h = subst (Adds 1 1 0) (ok_eq h) (refl, refl)
    below_element-Adds map_type parent path names f h = subst (Adds 1 1 0) (ok_eq h) (refl, refl)
    below_element-Adds (struct_type inner) parent path names f h =
        let below = below_fields-Adds inner parent path [] names f h in
        (omega (arith, below, columns_fields-own inner path []), below.1)
    below_element-Adds (array_type element) parent path names f h =
        subst (Adds 1 1 0) (ok_eq h) (refl, refl)

    below_fields-Adds :
        (inner : StructFields) (parent path : String) (segments : List String) (names : Dict String)
        (f : Below)
        → tables_below_fields p value_column entity inner parent path segments names ≡ ok f
        → Adds (leaves_fields inner) (own_leaves_fields inner) (arrays_fields inner) f
    below_fields-Adds no_fields parent path segments names f h =
        subst (Adds 0 0 0) (ok_eq h) (refl, refl)
    below_fields-Adds (struct_field name type rest) parent path segments names f h =
        let first =
          >>=_returns
            (tables_below p value_column entity type parent (join_path path name)
              (segments ++ name ∷ []) names)
            _ h in
        let a =
          below-Adds type parent (join_path path name) (segments ++ name ∷ []) names first.0
            first.1 in
        let second =
          >>=_returns
            (tables_below_fields p value_column entity rest parent path segments first.0.1) _
            first.2 in
        let b = below_fields-Adds rest parent path segments first.0.1 second.0 second.1 in
        subst
          (Adds (leaves type + leaves_fields rest) (own_leaves type + own_leaves_fields rest)
            (arrays type + arrays_fields rest))
          (ok_eq second.2)
          (
            omega (arith, a, b, column_count-append first.0.0 second.0.0),
            omega (arith, a, b, length-append first.0.0 second.0.0),
          )

  -- A plan has a table for the root and one for each array that is a field, and its tables together
  -- have exactly as many columns as the schema has leaves.
  pub build-counts :
      (schema : Schema) (tables : List PlannedTable)
      → build p value_column entity schema ≡ ok tables
      → (column_count tables ≡ leaves_element (element_of schema))
        × (length tables ≡ 1 + arrays_element (element_of schema))
  unfolding described column_count
  build-counts schema tables h =
      let naming =
        >>=_returns (lift_naming (make_table_name p (entity ∷ []) "$" [])) _
          (sym (build-described p value_column entity schema) ∙ h) in
      let element = element_of schema in
      let rest =
        >>=_returns (tables_below_element p value_column entity element naming.0.1 "$" naming.0.0) _
          naming.2 in
      let below = below_element-Adds element naming.0.1 "$" naming.0.0 rest.0 rest.1 in
      subst
        (λ ts.
          (column_count ts ≡ leaves_element element) × (length ts ≡ 1 + arrays_element element))
        (ok_eq rest.2)
        (
          omega (arith, below, length-map (columns_of_element p value_column entity element "$")),
          omega (arith, below),
        )
