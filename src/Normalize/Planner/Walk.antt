-- ===== src/Normalize/Planner/Walk.antt =====
-- The walk over the store of tables gives the plan that is described without one.
use elt_pipeline.Prelude.{
  String, Bool, true, false, none, some, List, [], ◌∷◌, ◌++◌, ◌≡◌, refl, ap, ◌∙◌, length, is_empty,
  ok, ◌>>=◌,
}
use mathlib.Core.List.{append-nil, append_assoc}
use elt_pipeline.Prelude.Dict.{Dict}
use elt_pipeline.Normalize.Identifiers.{Policy, make_table_name, make_column_name, join}
use elt_pipeline.Normalize.Plan.{
  SparkType, scalar_type, map_type, struct_type, array_type, StructFields, no_fields, struct_field,
  Schema, struct_schema, array_schema, TableColumnMapping, PlannedTable, Builder, join_path,
  on_table, lift_naming, new_table, add_explosion,
}
use elt_pipeline.Normalize.Planner.{
  create_table, register_named, register_value, register_plain, open_array, walk_type, walk_element,
  walk_fields, build, value_path,
}
use elt_pipeline.Normalize.Planner.Described.{
  grow, columns_of, columns_of_fields, columns_of_element, arrays_of, arrays_of_fields,
  arrays_of_element, tables_below, tables_below_element, tables_below_fields, described,
}
use elt_pipeline.Normalize.Planner.Steps.{
  bind_same, bind_assoc, table_at-length, change_at-length, grow-nil, store, frame_at,
  item_frame_at, grown, grown-column, grown_twice, array_at, with_array, child_table, opened,
  item_frame-length, opened_below,
}

nonempty_snoc : (segments : List String) (name : String) → is_empty (segments ++ name ∷ []) ≡ false
nonempty_snoc [] name = refl
nonempty_snoc (s ∷ ss) name = refl

add_explosion-grow :
    (t : PlannedTable) (accessor path : String)
    → add_explosion accessor path t
      ≡ grow t [] ((record { array_accessor = accessor; child_table_logical_path = path }) ∷ [])
add_explosion-grow t accessor path =
    rw (append-nil {A = TableColumnMapping}) (rw (append-nil {A = String × String}) refl)

-- A table is added at the end, and an array to the frame's table.
explosion_beside :
    (before after : List PlannedTable) (t new : PlannedTable) (names : Dict String) (item : Bool)
    (accessor path : String)
    → on_table
        (frame_at before item)
        (λ u. ok (add_explosion accessor path u))
        (record { tables = (before ++ t ∷ after) ++ new ∷ []; names = names })
      ≡ ok (record {
        tables =
            (before
              ++ grow t []
                  ((record { array_accessor = accessor; child_table_logical_path = path }) ∷ [])
                ∷ after)
            ++ new ∷ [];
        names = names;
      })
explosion_beside before after t new names item accessor path =
    rw (append_assoc before (t ∷ after) (new ∷ [])) (
      rw
        (change_at-length before (after ++ new ∷ []) t (add_explosion accessor path t)
          (λ u. ok (add_explosion accessor path u)) refl)
        (rw (add_explosion-grow t accessor path) (rw append_assoc refl)))

module _ (p : Policy) (value_column entity : String) where
  register_plain-named :
      (before after : List PlannedTable) (t : PlannedTable) (names : Dict String) (item : Bool)
      (path : String) (segments : List String)
      → is_empty segments ≡ false
      → register_plain p value_column entity
          (frame_at before item)
          path
          segments
          (store before t after names)
        ≡ register_named p value_column entity
            (frame_at before item)
            path
            segments
            (store before t after names)
  unfolding register_plain
  register_plain-named before after t names false path segments h = refl
  register_plain-named before after t names true path segments h = rw h refl

  open_array-opened :
      (before after : List PlannedTable) (t : PlannedTable) (names : Dict String) (item : Bool)
      (path : String) (segments : List String)
      → open_array p value_column entity
          (frame_at before item)
          path
          segments
          (store before t after names)
        ≡ (lift_naming (make_table_name p (entity ∷ segments) path names)
            >>= opened before after t path (array_at before after t path segments))
  unfolding open_array create_table
  open_array-opened before after t names item path segments = rw (table_at-length before after t) (
      bind_assoc (lift_naming (make_table_name p (entity ∷ segments) path names)) _ _
      ∙ bind_same (lift_naming (make_table_name p (entity ∷ segments) path names)) _ _ λ g.
        explosion_beside before after t
          (new_table path g.1 (some (PlannedTable.physical_table_name t))) g.0 item
          (join "." segments) path)

  unfoldable mutual
    unfolding walk_type columns_of columns_of_element arrays_of arrays_of_element tables_below
        register_named register_value

    walk_type-grown :
        (type : SparkType) (before after : List PlannedTable) (t : PlannedTable)
        (names : Dict String) (item : Bool) (path : String) (segments : List String)
        → is_empty segments ≡ false
        → walk_type p value_column entity type
            (frame_at before item)
            path
            segments
            (store before t after names)
          ≡ (tables_below p value_column entity type
                (PlannedTable.physical_table_name t)
                path
                segments
                names
              >>= grown before t after
                  (columns_of p value_column entity type path segments)
                  (arrays_of p value_column entity type path segments))
    walk_type-grown scalar_type before after t names item path segments h =
        register_plain-named before after t names item path segments h
        ∙ grown-column before after t names item (record {
          path = path;
          physical_name = make_column_name p segments;
          accessor = join "." segments;
        })
    walk_type-grown map_type before after t names item path segments h =
        grown-column before after t names item (record {
          path = path;
          physical_name = make_column_name p segments;
          accessor = join "." segments;
        })
    walk_type-grown (struct_type fields) before after t names item path segments h =
        walk_fields-grown fields before after t names item path segments
    walk_type-grown (array_type element) before after t names item path segments h =
        let e = array_at before after t path segments in
        ap
          (λ r.
            r
            >>= walk_element p value_column entity element
                (item_frame_at (length (before ++ t ∷ after))) path)
          (open_array-opened before after t names item path segments)
        ∙ opened_below before after t path e
            (lift_naming (make_table_name p (entity ∷ segments) path names)) _ _ _ _
            (λ g.
              ap
                (λ i.
                  walk_element p value_column entity element (item_frame_at i) path (
                    store (with_array before after t e) (child_table before after t path g) [] g.0))
                (item_frame-length before after t e)
              ∙ walk_element-grown element (with_array before after t e) []
                  (child_table before after t path g) g.0 path)

    walk_element-grown :
        (element : SparkType) (before after : List PlannedTable) (t : PlannedTable)
        (names : Dict String) (path : String)
        → walk_element p value_column entity element
            (frame_at before true)
            path
            (store before t after names)
          ≡ (tables_below_element p value_column entity element
                (PlannedTable.physical_table_name t)
                path
                names
              >>= grown before t after
                  (columns_of_element p value_column entity element path)
                  (arrays_of_element p value_column entity element path))
    walk_element-grown scalar_type before after t names path =
        grown-column before after t names true (record {
          path = value_path p value_column entity path;
          physical_name = value_column;
          accessor = "value";
        })
    walk_element-grown map_type before after t names path =
        grown-column before after t names true (record {
          path = value_path p value_column entity path;
          physical_name = value_column;
          accessor = "value";
        })
    walk_element-grown (struct_type fields) before after t names path =
        walk_fields-grown fields before after t names true path []
    walk_element-grown (array_type element) before after t names path =
        grown-column before after t names true (record {
          path = value_path p value_column entity path;
          physical_name = value_column;
          accessor = "value";
        })

    walk_fields-grown :
        (fields : StructFields) (before after : List PlannedTable) (t : PlannedTable)
        (names : Dict String) (item : Bool) (path : String) (segments : List String)
        → walk_fields p value_column entity fields
            (frame_at before item)
            path
            segments
            (store before t after names)
          ≡ (tables_below_fields p value_column entity fields
                (PlannedTable.physical_table_name t)
                path
                segments
                names
              >>= grown before t after
                  (columns_of_fields p value_column entity fields path segments)
                  (arrays_of_fields p value_column entity fields path segments))
    walk_fields-grown no_fields before after t names item path segments =
        rw (grow-nil t) (rw (append-nil {A = PlannedTable}) refl)
    walk_fields-grown (struct_field name type rest) before after t names item path segments =
        grown_twice before after t
          (tables_below p value_column entity type (PlannedTable.physical_table_name t)
            (join_path path name) (segments ++ name ∷ []) names)
          _ _ _ _ _ _ _
          (walk_type-grown type before after t names item (join_path path name)
            (segments ++ name ∷ []) (nonempty_snoc segments name))
          (λ f. walk_fields-grown rest before (after ++ f.0) _ f.1 item path segments)

  -- The builder's walk over its store of tables gives exactly the plan that is described without a
  -- store, errors included.
  pub build-described :
      (schema : Schema)
      → build p value_column entity schema ≡ described p value_column entity schema
  unfolding build described create_table walk_element
  build-described (struct_schema fields_of_root) =
      bind_assoc (lift_naming (make_table_name p (entity ∷ []) "$" [])) _ _
      ∙ bind_same (lift_naming (make_table_name p (entity ∷ []) "$" [])) _ _ (λ g.
        ap (λ r. r >>= λ b'. ok (Builder.tables b'))
          (walk_fields-grown fields_of_root [] [] (new_table "$" g.1 none) g.0 false "$" [])
        ∙ bind_assoc (tables_below_fields p value_column entity fields_of_root g.1 "$" [] g.0) _ _)
  build-described (array_schema element) =
      bind_assoc (lift_naming (make_table_name p (entity ∷ []) "$" [])) _ _
      ∙ bind_same (lift_naming (make_table_name p (entity ∷ []) "$" [])) _ _ (λ g.
        ap (λ r. r >>= λ b'. ok (Builder.tables b'))
          (walk_element-grown element [] [] (new_table "$" g.1 none) g.0 "$")
        ∙ bind_assoc (tables_below_element p value_column entity element g.1 "$" g.0) _ _)
