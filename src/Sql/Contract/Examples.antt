-- ===== src/Sql/Contract/Examples.antt =====
-- A contract of two columns, and the theorems at it.
use elt_pipeline.Prelude.{String, true, false, ◌≡◌, ◌↔◌, refl, none, some, List, [], ◌∷◌, ok}
use Prim.Native.Char.{Char}
use elt_pipeline.Prelude.Dict.{put}
use elt_pipeline.Prelude.Text.{decimal}
use elt_pipeline.Sql.Contract.Types.{
  StructField, string_type, decimal_type, array_type, long_type, normalise_spark_data_type,
  struct_type, field, no_fields, other, map_type,
}
use elt_pipeline.Sql.Contract.{
  DataContractWarningRecord, CompiledSqlModel, DataContractMode, strict, warn, diff_is_empty,
  diff_between, declared_by_name, extract_schema_fields, compute_contract_diff,
  enforce_data_contract_at_write,
}
use elt_pipeline.Sql.Contract.Conforms.{Conforms, diff_between_empty}
use elt_pipeline.Sql.Contract.Enforced.{CatalogConforms, enforce_data_contract_at_write_strict}

-- A table in which every letter is its own upper case.
abbrev same_case : Char → String
same_case c = String.◌∷◌ c String.[]

abbrev model : DataContractMode → CompiledSqlModel
model mode = record {
  model_id = "gold.sales.orders";
  contract = mode;
  columns =
      record { name = "id"; data_type = some " BIGINT"; nullable = some false }
      ∷ record { name = "total"; data_type = some "DECIMAL(10, 2)"; nullable = none }
      ∷ [];
}

abbrev schema : List StructField
schema =
    record { name = "id"; data_type = long_type; nullable = false }
    ∷ record { name = "total"; data_type = decimal_type 10 2; nullable = true }
    ∷ []

abbrev wider : List StructField
wider = record { name = "note"; data_type = string_type; nullable = true } ∷ schema

abbrev no_warnings : List DataContractWarningRecord
no_warnings = []

program : Unit {0}
unfolding enforce_data_contract_at_write normalise_spark_data_type extract_schema_fields
    compute_contract_diff diff_between declared_by_name put decimal
program = tt

nested :
    normalise_spark_data_type same_case (
      map_type string_type
        (array_type (struct_type (field "a" long_type (field "b" (other "VOIDtype") no_fields)))))
    ≡ "MAP<STRING,ARRAY<STRUCT<a:BIGINT,b:VOID>>>"
unfolding program
nested = refl

passes : enforce_data_contract_at_write same_case (model strict) (some schema) none none [] ≡ ok []
unfolding program
passes = refl

enforce_data_contract_at_write_strict_example :
    Conforms same_case
      (declared_by_name (model strict).columns)
      (extract_schema_fields same_case schema)
    × CatalogConforms same_case (model strict) none
    × (no_warnings ≡ no_warnings)
enforce_data_contract_at_write_strict_example =
    enforce_data_contract_at_write_strict same_case (model strict) schema none no_warnings
      no_warnings refl passes

diff_between_empty_example :
    (diff_is_empty (
        diff_between same_case
          (declared_by_name (model warn).columns)
          (extract_schema_fields same_case schema))
      ≡ true)
    ↔ Conforms same_case
        (declared_by_name (model warn).columns)
        (extract_schema_fields same_case schema)
diff_between_empty_example =
    diff_between_empty same_case (declared_by_name (model warn).columns)
      (extract_schema_fields same_case schema)
