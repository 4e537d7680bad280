-- ===== src/Normalize/Plan.antt =====
-- The plans of src/elt_pipeline/normalize/planner.py: the tables with their columns and arrays, and how
-- a column is registered in a table. The tables of a plan are a store.
use elt_pipeline.Prelude.{
  ℕ, zero, suc, String, Bool, false, Option, none, some, List, [], ◌∷◌, ◌++◌, ◌==◌, ◌&&◌,
  if◌then◌else◌, Attempt, ok, raise, ◌>>=◌,
}
use elt_pipeline.Prelude.Text.{concat}
use elt_pipeline.Prelude.Dict.{Dict}
use elt_pipeline.Normalize.Identifiers.{NamingError, Given}

-- Spark's types as far as the planner tells them apart.
mutual
  pub data SparkType : Type 0 where
    scalar_type : SparkType
    map_type : SparkType
    struct_type : StructFields → SparkType
    array_type : SparkType → SparkType

  pub data StructFields : Type 0 where
    no_fields : StructFields
    struct_field : String → SparkType → StructFields → StructFields

-- `StructType | ArrayType`
pub data Schema : Type 0 where
  struct_schema : StructFields → Schema
  array_schema : SparkType → Schema

pub record TableColumnMapping : Type 0 where
  pub logical_path : String
  pub physical_name : String

pub record PlannedArrayExplosion : Type 0 where
  pub array_accessor : String
  pub child_table_logical_path : String

pub record PlannedTable : Type 0 where
  pub logical_path : String
  pub physical_table_name : String
  pub parent_table_name : Option String
  pub join_key_columns : List String
  pub column_mappings : List TableColumnMapping
  pub scalar_accessors : List (String × String)
  pub child_arrays : List PlannedArrayExplosion

-- A Python value among the keys and values of `dict(column_mappings)`: a text, or a field of a
-- pydantic model, which is a pair of its name and its value.
pub data PyValue : Type 0 where
  text : String → PyValue
  field : String → String → PyValue

pub data PlanningError : Type 0 where
  naming : NamingError → PlanningError
  conflicting_mapping : String → PyValue → String → PlanningError
  no_such_table : ℕ → PlanningError

-- The builder: its plan's tables, and the names that its policy has given.
pub record Builder : Type 0 where
  pub tables : List PlannedTable
  pub names : Dict String

pub record Frame : Type 0 where
  pub planned : ℕ
  pub is_array_item : Bool

unfoldable pub join_path : String → String → String
join_path parent_path segment =
    if parent_path == "$" then concat "$." segment else concat parent_path (concat "." segment)

abbrev pyvalue_eq : PyValue → PyValue → Bool
pyvalue_eq (text s) (text t) = s == t
pyvalue_eq (text s) (field k v) = false
pyvalue_eq (field k v) (text t) = false
pyvalue_eq (field k v) (field j w) = k == j && v == w

-- `dict(column_mappings)`: each model gives its two fields as key and value.
abbrev pub existing : List TableColumnMapping → List (PyValue × PyValue)
existing [] = []
existing (m ∷ ms) =
    (
      field "logical_path" (TableColumnMapping.logical_path m),
      field "physical_name" (TableColumnMapping.physical_name m),
    )
    ∷ existing ms

-- `existing.get(key)`, where the last entry of a key is the one that stands.
abbrev first_of : Option PyValue → Option PyValue → Option PyValue
first_of (some v) other = some v
first_of none other = other

unfoldable pub get_existing : List (PyValue × PyValue) → PyValue → Option PyValue
get_existing [] key = none
get_existing (e ∷ es) key =
    first_of (get_existing es key) (if pyvalue_eq e.0 key then some e.1 else none)

abbrev append_column : PlannedTable → String → String → String → PlannedTable
append_column t path physical_name accessor = record t {
  column_mappings =
      PlannedTable.column_mappings t
      ++ (record { logical_path = path; physical_name = physical_name }) ∷ [];
  scalar_accessors = PlannedTable.scalar_accessors t ++ (physical_name, accessor) ∷ [];
}

abbrev register_unless :
    Option PyValue → PlannedTable → String → String → String → Attempt PlanningError PlannedTable
register_unless none t path physical_name accessor =
    ok (append_column t path physical_name accessor)
register_unless (some name) t path physical_name accessor =
    if pyvalue_eq name (text physical_name)
    then ok t
    else raise (conflicting_mapping path name physical_name)

-- `_register_scalar`, on the table of the frame.
unfoldable pub register_scalar :
    PlannedTable → String → String → String → Attempt PlanningError PlannedTable
unfolding get_existing
register_scalar t path physical_name accessor =
    register_unless (get_existing (existing (PlannedTable.column_mappings t)) (text path)) t path
      physical_name accessor

-- What a frame's table is, and a change of it in place.
unfoldable pub table_at : ℕ → List PlannedTable → Attempt PlanningError PlannedTable
table_at i [] = raise (no_such_table i)
table_at zero (t ∷ ts) = ok t
table_at (suc i) (t ∷ ts) = table_at i ts

unfoldable pub change_at :
    ℕ
    → (PlannedTable → Attempt PlanningError PlannedTable)
    → List PlannedTable
    → Attempt PlanningError (List PlannedTable)
change_at i change [] = raise (no_such_table i)
change_at zero change (t ∷ ts) = change t >>= λ t'. ok (t' ∷ ts)
change_at (suc i) change (t ∷ ts) = change_at i change ts >>= λ ts'. ok (t ∷ ts')

abbrev pub on_table :
    Frame
    → (PlannedTable → Attempt PlanningError PlannedTable)
    → Builder
    → Attempt PlanningError Builder
on_table frame change b = change_at (Frame.planned frame) change (Builder.tables b) >>= λ ts.
    ok (record b { tables = ts })

abbrev pub lift_naming : Attempt NamingError Given → Attempt PlanningError Given
lift_naming (raise e) = raise (naming e)
lift_naming (ok g) = ok g

abbrev join_keys : Option String → List String
join_keys none = []
join_keys (some name) = if name == "" then [] else "_parent_row_id" ∷ []

abbrev pub new_table : String → String → Option String → PlannedTable
new_table path name parent = record {
  logical_path = path;
  physical_table_name = name;
  parent_table_name = parent;
  join_key_columns = join_keys parent;
  column_mappings = [];
  scalar_accessors = [];
  child_arrays = [];
}

-- `frame.planned.child_arrays.append(…)`
abbrev pub add_explosion : String → String → PlannedTable → PlannedTable
add_explosion accessor path t = record t {
  child_arrays =
      PlannedTable.child_arrays t
      ++ (record { array_accessor = accessor; child_table_logical_path = path }) ∷ [];
}
