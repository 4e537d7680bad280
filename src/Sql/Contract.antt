-- ===== src/Sql/Contract.antt =====
-- src/elt_pipeline/sql/_contract_enforcement.py. The message of the error is left out; what it is
-- made of is kept. `upper_of` is the upper case of one character, from the Unicode tables.
pub mod Types
pub mod Conforms
pub mod Enforced
mod Examples
use elt_pipeline.Prelude.{
  String, Bool, true, false, not, Option, none, some, List, [], ◌∷◌, ◌++◌, ◌==◌, ◌&&◌, ◌||◌,
  is_empty, is_some, filter, Attempt, ok, raise, ◌>>=◌, if◌then◌else◌,
}
use Prim.Native.Char.{Char}
use elt_pipeline.Prelude.Names.{elem, sorted}
use elt_pipeline.Prelude.Dict.{Dict, get, put, keys}
use elt_pipeline.Sql.Contract.Types.{StructField, normalise_type_string, normalise_spark_data_type}

-- The fields of `SqlColumnSpec` that the contract reads.
pub record SqlColumnSpec : Type 0 where
  pub name : String
  pub data_type : Option String
  pub nullable : Option Bool

-- `{"type": ..., "nullable": ...}`
pub record ActualColumn : Type 0 where
  pub data_type : String
  pub nullable : Bool

pub record DataContractBrokenChange : Type 0 where
  pub column : String
  pub expected_type : Option String
  pub actual_type : Option String
  pub expected_nullable : Option Bool
  pub actual_nullable : Option Bool

pub record DataContractDiff : Type 0 where
  pub added_columns : List String
  pub removed_columns : List String
  pub changed_columns : List DataContractBrokenChange

abbrev pub diff_is_empty : DataContractDiff → Bool
diff_is_empty d =
    is_empty d.added_columns && is_empty d.removed_columns && is_empty d.changed_columns

pub data DataContractMode : Type 0 where
  off warn strict : DataContractMode

pub data ComparisonTarget : Type 0 where
  dataframe_schema catalog_schema : ComparisonTarget

pub record DataContractWarningRecord : Type 0 where
  pub model_id : String
  pub mode : DataContractMode
  pub comparison_target : ComparisonTarget
  pub diff : DataContractDiff

-- The fields of `CompiledSqlModel` that the contract reads.
pub record CompiledSqlModel : Type 0 where
  pub model_id : String
  pub contract : DataContractMode
  pub columns : List SqlColumnSpec

-- `SQL_CONTRACT_BROKEN`, without a schema to compare or with the difference found.
pub data ContractError : Type 0 where
  no_schema : String → ContractError
  contract_broken : String → ComparisonTarget → DataContractDiff → ContractError

abbrev pub same_bool : Bool → Bool → Bool
same_bool true b = b
same_bool false b = not b

unfoldable pub declared_from : List SqlColumnSpec → Dict SqlColumnSpec → Dict SqlColumnSpec
declared_from [] d = d
declared_from (spec ∷ specs) d = declared_from specs (put d spec.name spec)

unfoldable pub declared_by_name : List SqlColumnSpec → Dict SqlColumnSpec
unfolding declared_from
declared_by_name specs = declared_from specs []

module _ (upper_of : Char → String) where
  -- `extract_schema_fields`
  unfoldable pub extract_from : List StructField → Dict ActualColumn → Dict ActualColumn
  extract_from [] out = out
  extract_from (f ∷ fields) out = extract_from fields (
      put out f.name (record {
        data_type = normalise_spark_data_type upper_of f.data_type;
        nullable = f.nullable;
      }))

  unfoldable pub extract_schema_fields : List StructField → Dict ActualColumn
  unfolding extract_from
  extract_schema_fields fields = extract_from fields []

  abbrev pub type_changed : Option String → ActualColumn → Bool
  type_changed none actual = false
  type_changed (some t) actual = not (normalise_type_string upper_of t == actual.data_type)

  abbrev pub nullable_changed : Option Bool → ActualColumn → Bool
  nullable_changed none actual = false
  nullable_changed (some b) actual = not (same_bool b actual.nullable)

  abbrev pub expected_of : Option String → Option String
  expected_of none = none
  expected_of (some t) = some (normalise_type_string upper_of t)

  -- The change of one column that is declared and there, if it has one.
  unfoldable pub column_change :
      String → SqlColumnSpec → ActualColumn → Option DataContractBrokenChange
  column_change name spec actual =
      let typed = type_changed spec.data_type actual in
      let nulled = nullable_changed spec.nullable actual in
      if typed || nulled
      then some (record {
        column = name;
        expected_type = if typed then expected_of spec.data_type else none;
        actual_type = if typed then some actual.data_type else none;
        expected_nullable = if nulled then spec.nullable else none;
        actual_nullable = if nulled then some actual.nullable else none;
      })
      else none

  abbrev pub change_between :
      String → Option SqlColumnSpec → Option ActualColumn → Option DataContractBrokenChange
  change_between name (some spec) (some actual) = column_change name spec actual
  change_between name _ _ = none

  abbrev pub keep_change :
      Option DataContractBrokenChange
      → List DataContractBrokenChange
      → List DataContractBrokenChange
  keep_change none changes = changes
  keep_change (some c) changes = c ∷ changes

  unfoldable pub changes :
      Dict SqlColumnSpec → Dict ActualColumn → List String → List DataContractBrokenChange
  unfolding column_change get
  changes declared actual [] = []
  changes declared actual (n ∷ ns) =
      keep_change (change_between n (get declared n) (get actual n)) (changes declared actual ns)

  -- The three lists for a table of the declared columns and one of the actual columns.
  unfoldable pub diff_between : Dict SqlColumnSpec → Dict ActualColumn → DataContractDiff
  unfolding changes sorted elem
  diff_between declared actual = record {
    added_columns = sorted (filter (λ n. not (elem n (keys declared))) (keys actual));
    removed_columns = sorted (filter (λ n. not (elem n (keys actual))) (keys declared));
    changed_columns =
        changes declared actual (sorted (filter (λ n. elem n (keys actual)) (keys declared)));
  }

  unfoldable pub compute_contract_diff : List SqlColumnSpec → Dict ActualColumn → DataContractDiff
  unfolding diff_between declared_by_name
  compute_contract_diff declared_columns actual =
      diff_between (declared_by_name declared_columns) actual

  abbrev pub decide_as :
      DataContractMode
      → CompiledSqlModel
      → ComparisonTarget
      → DataContractDiff
      → List DataContractWarningRecord
      → Attempt ContractError (List DataContractWarningRecord)
  decide_as strict model target diff warnings = raise (contract_broken model.model_id target diff)
  decide_as warn model target diff warnings = ok (
      warnings
      ++ record { model_id = model.model_id; mode = warn; comparison_target = target; diff = diff }
        ∷ [])
  decide_as off model target diff warnings = ok warnings

  -- `_apply_contract_decision`: the warnings, or the error.
  unfoldable pub apply_contract_decision :
      CompiledSqlModel
      → ComparisonTarget
      → DataContractDiff
      → List DataContractWarningRecord
      → Attempt ContractError (List DataContractWarningRecord)
  apply_contract_decision model target diff warnings =
      decide_as model.contract model target diff warnings

  abbrev pub decide :
      CompiledSqlModel
      → ComparisonTarget
      → DataContractDiff
      → List DataContractWarningRecord
      → Attempt ContractError (List DataContractWarningRecord)
  decide model target diff warnings =
      if diff_is_empty diff then ok warnings else apply_contract_decision model target diff warnings

  -- The difference that the caller gives, or that of the schema.
  abbrev pub dataframe_diff_of :
      CompiledSqlModel
      → Option (List StructField)
      → Option DataContractDiff
      → Attempt ContractError DataContractDiff
  dataframe_diff_of model schema (some diff) = ok diff
  dataframe_diff_of model none none = raise (no_schema model.model_id)
  dataframe_diff_of model (some schema) none =
      ok (compute_contract_diff model.columns (extract_schema_fields schema))

  abbrev pub check_catalog :
      CompiledSqlModel
      → Option (Dict ActualColumn)
      → List DataContractWarningRecord
      → Attempt ContractError (List DataContractWarningRecord)
  check_catalog model none warnings = ok warnings
  check_catalog model (some columns) warnings =
      decide model catalog_schema (compute_contract_diff model.columns columns) warnings

  abbrev pub enforce_as :
      DataContractMode
      → CompiledSqlModel
      → Option (List StructField)
      → Option DataContractDiff
      → Option (Dict ActualColumn)
      → List DataContractWarningRecord
      → Attempt ContractError (List DataContractWarningRecord)
  enforce_as off model schema given catalog warnings = ok warnings
  enforce_as mode model schema given catalog warnings = do
    diff ← dataframe_diff_of model schema given
    warned ← decide model dataframe_schema diff warnings
    check_catalog model catalog warned

  unfoldable pub enforce_data_contract_at_write :
      CompiledSqlModel
      → Option (List StructField)
      → Option DataContractDiff
      → Option (Dict ActualColumn)
      → List DataContractWarningRecord
      → Attempt ContractError (List DataContractWarningRecord)
  unfolding compute_contract_diff extract_schema_fields apply_contract_decision
  enforce_data_contract_at_write model schema given catalog warnings =
      enforce_as model.contract model schema given catalog warnings
