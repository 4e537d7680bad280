-- ===== src/Normalize/Planner.antt =====
-- _PlanBuilder of src/elt_pipeline/normalize/planner.py: the walk over a schema that splits it into
-- tables. A frame points to its table by its place in the store.
pub mod Described
mod Steps
pub mod Walk
pub mod Names
pub mod Totals
pub mod Parents
pub mod Errors
use elt_pipeline.Prelude.{
  ℕ, zero, suc, String, Bool, true, false, Option, none, some, List, [], ◌∷◌, ◌++◌, ◌==◌, ◌&&◌,
  if◌then◌else◌, length, is_empty, Attempt, ok, raise, ◌>>=◌,
}
use elt_pipeline.Prelude.Text.{concat}
use elt_pipeline.Prelude.Dict.{Dict}
use elt_pipeline.Normalize.Identifiers.{
  NamingError, Policy, Given, make_table_name, make_column_name, join,
}
use elt_pipeline.Normalize.Plan.{
  SparkType, StructFields, Schema, struct_schema, array_schema, PlannedTable, text, field,
  PlanningError, Builder, Frame, join_path, register_scalar, table_at, change_at, on_table,
  lift_naming, new_table, add_explosion, scalar_type, map_type, struct_type, array_type, no_fields,
  struct_field,
}

-- The settings of the planner that do not change: the policy, `value_column_name`, the entity.
module _ (p : Policy) (value_column entity : String) where
  -- The new table stands at the end of the store.
  unfoldable pub create_table :
      String → List String → Option String → Builder → Attempt PlanningError Builder
  create_table path name_segments parent b =
      lift_naming (make_table_name p name_segments path (Builder.names b)) >>= λ g.
      ok (record b { tables = Builder.tables b ++ new_table path g.1 parent ∷ []; names = g.0 })

  unfoldable pub register_named :
      Frame → String → List String → Builder → Attempt PlanningError Builder
  unfolding make_column_name register_scalar change_at
  register_named frame path segments b =
      on_table frame (λ t. register_scalar t path (make_column_name p segments) (join "." segments))
        b

  abbrev pub value_path : String → String
  value_path path = concat path (concat "." value_column)

  unfoldable pub register_value : Frame → String → Builder → Attempt PlanningError Builder
  unfolding register_scalar change_at
  register_value frame path b =
      on_table frame (λ t. register_scalar t (value_path path) value_column "value") b

  -- A type that is no struct, array or map.
  unfoldable pub register_plain :
      Frame → String → List String → Builder → Attempt PlanningError Builder
  unfolding register_named register_value table_at
  register_plain frame path segments b =
      let item = table_at (Frame.planned frame) (Builder.tables b) >>= λ t.
      register_value frame (PlannedTable.logical_path t) b in
      if Frame.is_array_item frame && is_empty segments
      then item
      else register_named frame path segments b

  -- The child table of an array, which the frame's table explodes.
  unfoldable pub open_array : Frame → String → List String → Builder → Attempt PlanningError Builder
  unfolding create_table table_at change_at
  open_array frame path segments b = table_at (Frame.planned frame) (Builder.tables b) >>= λ t.
      create_table path (entity ∷ segments) (some (PlannedTable.physical_table_name t)) b >>= λ b'.
      on_table frame (λ t'. ok (add_explosion (join "." segments) path t')) b'

  abbrev pub item_frame : Builder → Frame
  item_frame b = record { planned = length (Builder.tables b); is_array_item = true }

  unfoldable mutual
    unfolding register_plain register_named register_value open_array join_path

    -- `_walk_field`, from the type of the field on.
    pub walk_type :
        SparkType → Frame → String → List String → Builder → Attempt PlanningError Builder
    walk_type scalar_type frame path segments b = register_plain frame path segments b
    walk_type map_type frame path segments b = register_named frame path segments b
    walk_type (struct_type fields) frame path segments b = walk_fields fields frame path segments b
    walk_type (array_type element) frame path segments b =
        open_array frame path segments b >>= λ b'. walk_element element (item_frame b) path b'

    -- The elements of an array, in the frame of its table.
    pub walk_element : SparkType → Frame → String → Builder → Attempt PlanningError Builder
    walk_element scalar_type frame path b = register_value frame path b
    walk_element map_type frame path b = register_value frame path b
    walk_element (struct_type fields) frame path b = walk_fields fields frame path [] b
    walk_element (array_type element) frame path b = register_value frame path b

    -- The loop over the fields of a struct.
    pub walk_fields :
        StructFields → Frame → String → List String → Builder → Attempt PlanningError Builder
    walk_fields no_fields frame path segments b = ok b
    walk_fields (struct_field name type rest) frame path segments b =
        walk_type type frame (join_path path name) (segments ++ name ∷ []) b >>= λ b'.
        walk_fields rest frame path segments b'

  abbrev root_frame : Bool → Frame
  root_frame is_array_item = record { planned = 0; is_array_item = is_array_item }

  abbrev walk_root : Schema → Builder → Attempt PlanningError Builder
  walk_root (struct_schema fields) b = walk_fields fields (root_frame false) "$" [] b
  walk_root (array_schema element) b = walk_element element (root_frame true) "$" b

  -- `build`: the root table, and the walk from it.
  unfoldable pub build : Schema → Attempt PlanningError (List PlannedTable)
  unfolding create_table walk_fields walk_element
  build schema = create_table "$" (entity ∷ []) none (record { tables = []; names = [] }) >>= λ b.
      walk_root schema b >>= λ b'. ok (Builder.tables b')

-- `plan_from_csv_header`: a text column for each name of the header.
abbrev header_fields : List String → StructFields
header_fields [] = no_fields
header_fields (name ∷ names) = struct_field name scalar_type (header_fields names)

unfoldable pub plan_from_csv_header :
    Policy → String → String → List String → Attempt PlanningError (List PlannedTable)
unfolding build
plan_from_csv_header p value_column entity fieldnames =
    build p value_column entity (struct_schema (header_fields fieldnames))
