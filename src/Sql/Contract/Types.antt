-- ===== src/Sql/Contract/Types.antt =====
-- The type names of src/elt_pipeline/sql/_contract_enforcement.py.
use elt_pipeline.Prelude.{ℕ, String, Bool}
use Prim.Native.Char.{Char}
use Prim.Native.String.{◌++◌}
use elt_pipeline.Prelude.Text.{strip, remove, decimal}

-- The classes of `pyspark.sql.types`; `other` has the name of the class in lower case.
mutual
  pub data DataType : Type 0 where
    string_type integer_type long_type short_type byte_type double_type float_type : DataType
    boolean_type date_type timestamp_type timestamp_ntz_type binary_type : DataType
    decimal_type : ℕ → ℕ → DataType
    array_type : DataType → DataType
    map_type : DataType → DataType → DataType
    struct_type : Fields → DataType
    other : String → DataType

  pub data Fields : Type 0 where
    no_fields : Fields
    field : String → DataType → Fields → Fields

pub record StructField : Type 0 where
  pub name : String
  pub data_type : DataType
  pub nullable : Bool

-- `raw.strip().upper().replace(" ", "")`
module _ (upper_of : Char → String) where
  unfoldable pub upper : String → String
  upper String.[] = String.[]
  upper (String.◌∷◌ c s) = upper_of c ++ upper s

  unfoldable pub normalise_type_string : String → String
  unfolding upper strip remove
  normalise_type_string raw = remove " " (upper (strip raw))

  unfoldable mutual
    unfolding normalise_type_string

    pub normalise_spark_data_type : DataType → String
    normalise_spark_data_type string_type = "STRING"
    normalise_spark_data_type integer_type = "INT"
    normalise_spark_data_type long_type = "BIGINT"
    normalise_spark_data_type short_type = "SMALLINT"
    normalise_spark_data_type byte_type = "TINYINT"
    normalise_spark_data_type double_type = "DOUBLE"
    normalise_spark_data_type float_type = "FLOAT"
    normalise_spark_data_type boolean_type = "BOOLEAN"
    normalise_spark_data_type date_type = "DATE"
    normalise_spark_data_type timestamp_type = "TIMESTAMP"
    normalise_spark_data_type timestamp_ntz_type = "TIMESTAMP_NTZ"
    normalise_spark_data_type binary_type = "BINARY"
    normalise_spark_data_type (decimal_type precision scale) =
        "DECIMAL(" ++ decimal precision ++ "," ++ decimal scale ++ ")"
    normalise_spark_data_type (array_type element) =
        "ARRAY<" ++ normalise_spark_data_type element ++ ">"
    normalise_spark_data_type (map_type key value) =
        "MAP<" ++ normalise_spark_data_type key ++ "," ++ normalise_spark_data_type value ++ ">"
    normalise_spark_data_type (struct_type fields) = "STRUCT<" ++ join_fields fields ++ ">"
    normalise_spark_data_type (other name) = normalise_type_string (remove "type" name)

    -- `",".join(fields)`
    pub join_fields : Fields → String
    join_fields no_fields = ""
    join_fields (field name t no_fields) = name ++ ":" ++ normalise_spark_data_type t
    join_fields (field name t (field name' t' rest)) =
        name ++ ":" ++ normalise_spark_data_type t ++ "," ++ join_fields (field name' t' rest)
