-- ===== src/Normalize/Relational/Examples.antt =====
-- The plan of orders with lines and tags, and a run of it in which a data frame is its history.
use elt_pipeline.Prelude.{ℕ, ◌+◌, none, some, List, [], ◌∷◌, ◌≡◌, refl, ok, raise}
use elt_pipeline.Prelude.Dict.{Dict}
use elt_pipeline.Normalize.Identifiers.{Policy, make_table_name, length_too_small}
use elt_pipeline.Normalize.Plan.{
  scalar_type, struct_type, array_type, no_fields, struct_field, Schema, struct_schema,
  PlannedTable, naming,
}
use elt_pipeline.Normalize.Planner.{build, plan_from_csv_header}
use elt_pipeline.Normalize.Planner.Described.{element_of}
use elt_pipeline.Normalize.Planner.Totals.{
  build-counts, column_count, leaves_element, arrays_element,
}
use elt_pipeline.Normalize.Planner.Errors.{build_errors, IsNaming}
use elt_pipeline.Normalize.Planner.Walk.{build-described}
use elt_pipeline.Normalize.Planner.Described.{described}
use elt_pipeline.Normalize.Relational.{Spark, execute}

abbrev policy : ℕ → Policy
policy limit = record {
  max_identifier_length = limit;
  separator = "__";
  lower = λ s. s;
  digest = λ s. s;
}

abbrev schema : Schema
schema = struct_schema (
    struct_field "id" scalar_type (
      struct_field "customer" (struct_type (struct_field "name" scalar_type no_fields)) (
        struct_field "lines"
          (array_type (
            struct_type (
              struct_field "sku" scalar_type
                (struct_field "tags" (array_type scalar_type) no_fields))))
          no_fields)))

program : Unit {0}
unfolding build make_table_name execute
program = tt

abbrev tables : List PlannedTable
tables =
    record {
      logical_path = "$";
      physical_table_name = "orders";
      parent_table_name = none;
      join_key_columns = [];
      column_mappings =
          record { logical_path = "$.id"; physical_name = "id" }
          ∷ record { logical_path = "$.customer.name"; physical_name = "customer__name" }
          ∷ [];
      scalar_accessors = ("id", "id") ∷ ("customer__name", "customer.name") ∷ [];
      child_arrays = record { array_accessor = "lines"; child_table_logical_path = "$.lines" } ∷ [];
    }
    ∷ record {
      logical_path = "$.lines";
      physical_table_name = "orders__lines";
      parent_table_name = some "orders";
      join_key_columns = "_parent_row_id" ∷ [];
      column_mappings = record { logical_path = "$.lines.sku"; physical_name = "sku" } ∷ [];
      scalar_accessors = ("sku", "sku") ∷ [];
      child_arrays =
          record { array_accessor = "tags"; child_table_logical_path = "$.lines.tags" } ∷ [];
    }
    ∷ record {
      logical_path = "$.lines.tags";
      physical_table_name = "orders__tags";
      parent_table_name = some "orders__lines";
      join_key_columns = "_parent_row_id" ∷ [];
      column_mappings =
          record { logical_path = "$.lines.tags.value"; physical_name = "value" } ∷ [];
      scalar_accessors = ("value", "value") ∷ [];
      child_arrays = [];
    }
    ∷ []

built : build (policy 63) "value" "orders" schema ≡ ok tables
unfolding program
built = refl

-- Two columns of a header with one name are two columns of the table.
repeated :
    plan_from_csv_header (policy 63) "value" "items" ("a" ∷ "a" ∷ [])
    ≡ ok (
        record {
          logical_path = "$";
          physical_table_name = "items";
          parent_table_name = none;
          join_key_columns = [];
          column_mappings =
              record { logical_path = "$.a"; physical_name = "a" }
              ∷ record { logical_path = "$.a"; physical_name = "a" }
              ∷ [];
          scalar_accessors = ("a", "a") ∷ ("a", "a") ∷ [];
          child_arrays = [];
        }
        ∷ [])
unfolding program plan_from_csv_header
repeated = refl

build-described_example :
    build (policy 63) "value" "orders" schema ≡ described (policy 63) "value" "orders" schema
build-described_example = build-described (policy 63) "value" "orders" schema

build-counts_example :
    (column_count tables ≡ leaves_element (element_of schema))
    × (◌≡◌ {A = ℕ} 3 (1 + arrays_element (element_of schema)))
build-counts_example = build-counts (policy 63) "value" "orders" schema tables built

too_small : build (policy 3) "value" "orders" schema ≡ raise (naming (length_too_small 3))
unfolding program
too_small = refl

build_errors_example : IsNaming (naming (length_too_small 3))
build_errors_example =
    build_errors (policy 3) "value" "orders" schema (naming (length_too_small 3)) too_small

-- A data frame is the number of steps that made it.
abbrev steps : Spark
steps = record {
  DataFrame = ℕ;
  columns = λ df. [];
  select = λ qs df. some (df + 1);
  drop = λ name df. df + 1;
  explode = λ accessor df. some (df + 1);
  with_index = λ df. df + 1;
  with_row_id = λ df. df + 1;
}

executed :
    execute steps 0 tables ≡ ok (("orders", 2) ∷ ("orders__lines", 6) ∷ ("orders__tags", 10) ∷ [])
unfolding program
executed = refl
