-- ===== src/Normalize/Planner/Described.antt =====
-- The plan of a schema described without a store: the columns and arrays of a type, and the tables
-- below it from the top down. The walk of the builder gives that plan.
use elt_pipeline.Prelude.{String, Option, none, some, List, [], ◌∷◌, ◌++◌, map, Attempt, ok, ◌>>=◌}
use elt_pipeline.Prelude.Dict.{Dict}
use elt_pipeline.Normalize.Identifiers.{Policy, make_table_name, make_column_name, join}
use elt_pipeline.Normalize.Plan.{
  SparkType, scalar_type, map_type, struct_type, array_type, StructFields, no_fields, struct_field,
  Schema, struct_schema, array_schema, TableColumnMapping, PlannedArrayExplosion, PlannedTable,
  PlanningError, join_path, lift_naming, new_table,
}
use elt_pipeline.Normalize.Planner.{value_path}

pub record Column : Type 0 where
  pub path : String
  pub physical_name : String
  pub accessor : String

abbrev pub mapping : Column → TableColumnMapping
mapping c = record { logical_path = Column.path c; physical_name = Column.physical_name c }

abbrev pub accessor_of : Column → String × String
accessor_of c = (Column.physical_name c, Column.accessor c)

-- A table with more columns and arrays.
abbrev pub grow : PlannedTable → List Column → List PlannedArrayExplosion → PlannedTable
grow t columns arrays = record t {
  column_mappings = PlannedTable.column_mappings t ++ map mapping columns;
  scalar_accessors = PlannedTable.scalar_accessors t ++ map accessor_of columns;
  child_arrays = PlannedTable.child_arrays t ++ arrays;
}

-- Tables with the names given after them.
abbrev pub Below : Type 0
Below = List PlannedTable × Dict String

-- The element type of a schema: a struct is the element of one record.
abbrev pub element_of : Schema → SparkType
element_of (struct_schema fields) = struct_type fields
element_of (array_schema element) = element

module _ (p : Policy) (value_column entity : String) where
  abbrev named_column : String → List String → List Column
  named_column path segments =
      (record {
        path = path;
        physical_name = make_column_name p segments;
        accessor = join "." segments;
      })
      ∷ []

  abbrev value_column_of : String → List Column
  value_column_of path =
      (record {
        path = value_path p value_column entity path;
        physical_name = value_column;
        accessor = "value";
      })
      ∷ []

  unfoldable mutual
    unfolding join_path make_column_name

    pub columns_of : SparkType → String → List String → List Column
    columns_of scalar_type path segments = named_column path segments
    columns_of map_type path segments = named_column path segments
    columns_of (struct_type fields) path segments = columns_of_fields fields path segments
    columns_of (array_type element) path segments = []

    pub columns_of_fields : StructFields → String → List String → List Column
    columns_of_fields no_fields path segments = []
    columns_of_fields (struct_field name type rest) path segments =
        columns_of type (join_path path name) (segments ++ name ∷ [])
        ++ columns_of_fields rest path segments

  unfoldable pub columns_of_element : SparkType → String → List Column
  unfolding columns_of
  columns_of_element (struct_type fields) path = columns_of_fields fields path []
  columns_of_element scalar_type path = value_column_of path
  columns_of_element map_type path = value_column_of path
  columns_of_element (array_type element) path = value_column_of path

  unfoldable mutual
    unfolding join_path

    pub arrays_of : SparkType → String → List String → List PlannedArrayExplosion
    arrays_of scalar_type path segments = []
    arrays_of map_type path segments = []
    arrays_of (struct_type fields) path segments = arrays_of_fields fields path segments
    arrays_of (array_type element) path segments =
        (record { array_accessor = join "." segments; child_table_logical_path = path }) ∷ []

    pub arrays_of_fields : StructFields → String → List String → List PlannedArrayExplosion
    arrays_of_fields no_fields path segments = []
    arrays_of_fields (struct_field name type rest) path segments =
        arrays_of type (join_path path name) (segments ++ name ∷ [])
        ++ arrays_of_fields rest path segments

  unfoldable pub arrays_of_element : SparkType → String → List PlannedArrayExplosion
  unfolding arrays_of
  arrays_of_element (struct_type fields) path = arrays_of_fields fields path []
  arrays_of_element scalar_type path = []
  arrays_of_element map_type path = []
  arrays_of_element (array_type element) path = []

  -- The table of some elements, with its columns and arrays.
  abbrev pub table_of : SparkType → String → String → Option String → PlannedTable
  table_of element path name parent =
      grow (new_table path name parent) (columns_of_element element path)
        (arrays_of_element element path)

  unfoldable mutual
    unfolding columns_of_element arrays_of_element join_path

    -- The tables below a type, in a table with the given name.
    pub tables_below :
        SparkType → String → String → List String → Dict String → Attempt PlanningError Below
    tables_below scalar_type parent path segments names = ok ([], names)
    tables_below map_type parent path segments names = ok ([], names)
    tables_below (struct_type fields) parent path segments names =
        tables_below_fields fields parent path segments names
    tables_below (array_type element) parent path segments names =
        lift_naming (make_table_name p (entity ∷ segments) path names) >>= λ g.
        tables_below_element element g.1 path g.0 >>= λ f.
        ok (table_of element path g.1 (some parent) ∷ f.0, f.1)

    pub tables_below_element :
        SparkType → String → String → Dict String → Attempt PlanningError Below
    tables_below_element scalar_type parent path names = ok ([], names)
    tables_below_element map_type parent path names = ok ([], names)
    tables_below_element (struct_type fields) parent path names =
        tables_below_fields fields parent path [] names
    tables_below_element (array_type element) parent path names = ok ([], names)

    pub tables_below_fields :
        StructFields → String → String → List String → Dict String → Attempt PlanningError Below
    tables_below_fields no_fields parent path segments names = ok ([], names)
    tables_below_fields (struct_field name type rest) parent path segments names =
        tables_below type parent (join_path path name) (segments ++ name ∷ []) names >>= λ f.
        tables_below_fields rest parent path segments f.1 >>= λ g. ok (f.0 ++ g.0, g.1)

  unfoldable pub described : Schema → Attempt PlanningError (List PlannedTable)
  unfolding tables_below
  described schema = lift_naming (make_table_name p (entity ∷ []) "$" []) >>= λ g.
      tables_below_element (element_of schema) g.1 "$" g.0 >>= λ f.
      ok (table_of (element_of schema) "$" g.1 none ∷ f.0)
