-- ===== src/Normalize/Relational.antt =====
-- SparkRelationalizer of src/elt_pipeline/normalize/spark_runner.py: the data frames of a plan's
-- tables. What Spark does with a data frame is the parameter Spark.
mod Lookups
mod Frames
pub mod Returns
mod Examples
use elt_pipeline.Prelude.{
  String, Bool, Option, none, some, List, [], ◌∷◌, ◌++◌, ◌==◌, map, is_empty, if◌then◌else◌,
  Attempt, ok, raise, ◌>>=◌,
}
use elt_pipeline.Prelude.Text.{concat}
use elt_pipeline.Prelude.Names.{elem}
use elt_pipeline.Prelude.Dict.{Dict, get, put}
use elt_pipeline.Normalize.Plan.{PlannedArrayExplosion, PlannedTable}

-- A column of a `select`: `col(accessor)`, `col(accessor).alias(name)`, or the null marker.
pub data Projection : Type 0 where
  column : String → Projection
  alias : String → String → Projection
  empty_marker : Projection

-- `explode` selects `_row_id` as `_parent_row_id` and `posexplode_outer` of a column as `_array_index`
-- and `item`; `with_row_id` adds the column `_row_id`; `with_index` keeps the rows whose `_array_index`
-- is not null. `none` is the AnalysisException of a column that the data frame does not have.
pub record Spark : Type 1 where
  pub DataFrame : Type 0
  pub columns : DataFrame → List String
  pub select : List Projection → DataFrame → Option DataFrame
  pub drop : String → DataFrame → DataFrame
  pub explode : String → DataFrame → Option DataFrame
  pub with_index : DataFrame → DataFrame
  pub with_row_id : DataFrame → DataFrame

-- The KeyErrors of the two lookups, the StopIteration of `next`, and the exception of Spark.
pub data RunError : Type 0 where
  unknown_parent : String → RunError
  no_frame : String → RunError
  no_explosion : String → RunError
  analysis_exception : RunError

-- `[col(field_accessor).alias(physical_name) …]`
abbrev root_columns : List (String × String) → List Projection
root_columns [] = []
root_columns ((physical_name, field_accessor) ∷ rest) =
    alias field_accessor physical_name ∷ root_columns rest

abbrev root_arrays : List PlannedArrayExplosion → List Projection
root_arrays [] = []
root_arrays (e ∷ es) = column (PlannedArrayExplosion.array_accessor e) ∷ root_arrays es

abbrev or_marker : List Projection → List Projection
or_marker [] = empty_marker ∷ []
or_marker (q ∷ qs) = q ∷ qs

unfoldable pub root_projections : PlannedTable → List Projection
root_projections t =
    or_marker
      (root_columns (PlannedTable.scalar_accessors t) ++ root_arrays (PlannedTable.child_arrays t))

-- The item itself if its accessor is `value`, and else a field of it.
abbrev item_column : String → String → Projection
item_column physical_name field_accessor =
    if field_accessor == "value"
    then alias "item" physical_name
    else alias (concat "item." field_accessor) physical_name

abbrev item_columns : List (String × String) → List Projection
item_columns [] = []
item_columns ((physical_name, field_accessor) ∷ rest) =
    item_column physical_name field_accessor ∷ item_columns rest

abbrev item_arrays : List PlannedArrayExplosion → List Projection
item_arrays [] = []
item_arrays (e ∷ es) =
    alias (concat "item." (PlannedArrayExplosion.array_accessor e))
      (PlannedArrayExplosion.array_accessor e)
    ∷ item_arrays es

unfoldable pub child_projections : PlannedTable → List Projection
child_projections t =
    column "_parent_row_id"
    ∷ column "_array_index"
    ∷ (item_columns (PlannedTable.scalar_accessors t) ++ item_arrays (PlannedTable.child_arrays t))

-- `{t.physical_table_name: t for t in plan.tables}`
abbrev by_physical_from : Dict PlannedTable → List PlannedTable → Dict PlannedTable
by_physical_from d [] = d
by_physical_from d (t ∷ ts) = by_physical_from (put d (PlannedTable.physical_table_name t) t) ts

unfoldable pub tables_by_physical : List PlannedTable → Dict PlannedTable
unfolding put
tables_by_physical tables = by_physical_from [] tables

-- `next(e for e in child_arrays if e.child_table_logical_path == path)`
unfoldable pub next_explosion : String → List PlannedArrayExplosion → Option PlannedArrayExplosion
next_explosion path [] = none
next_explosion path (e ∷ es) =
    let later = next_explosion path es in
    if PlannedArrayExplosion.child_table_logical_path e == path then some e else later

abbrev pub or_raise : {A : Type 0} → RunError → Option A → Attempt RunError A
or_raise e none = raise e
or_raise e (some a) = ok a

module _ (spark : Spark) where
  open spark use {DataFrame, columns, select, drop, explode, with_index, with_row_id}

  abbrev without_marker : DataFrame → DataFrame
  without_marker df = if elem "_empty_marker" (columns df) then drop "_empty_marker" df else df

  unfoldable pub build_root_df : DataFrame → PlannedTable → Attempt RunError DataFrame
  unfolding root_projections elem
  build_root_df raw_df t = do
    df ← or_raise analysis_exception (select (root_projections t) raw_df)
    ok (with_row_id (without_marker df))

  unfoldable pub build_child_df : DataFrame → PlannedTable → String → Attempt RunError DataFrame
  unfolding child_projections
  build_child_df parent_df t array_accessor = do
    exploded ← or_raise analysis_exception (explode array_accessor parent_df)
    df ← or_raise analysis_exception (select (child_projections t) exploded)
    ok (with_row_id (with_index df))

  -- The data frame of a table.
  abbrev pub frame_of :
      DataFrame
      → Dict PlannedTable
      → Dict DataFrame
      → PlannedTable
      → Option String
      → Attempt RunError DataFrame
  frame_of raw_df by_physical result t none = build_root_df raw_df t
  frame_of raw_df by_physical result t (some parent) =
      or_raise (unknown_parent parent) (get by_physical parent) >>= λ parent_planned.
      or_raise (no_frame parent) (get result (PlannedTable.physical_table_name parent_planned))
      >>= λ parent_df.
          or_raise (no_explosion (PlannedTable.logical_path t)) (
            next_explosion (PlannedTable.logical_path t) (PlannedTable.child_arrays parent_planned))
          >>= λ explosion.
              build_child_df parent_df t (PlannedArrayExplosion.array_accessor explosion)

  -- `for planned in plan.tables`
  unfoldable pub execute_from :
      DataFrame
      → Dict PlannedTable
      → Dict DataFrame
      → List PlannedTable
      → Attempt RunError (Dict DataFrame)
  unfolding get put next_explosion build_root_df build_child_df
  execute_from raw_df by_physical result [] = ok result
  execute_from raw_df by_physical result (t ∷ ts) =
      frame_of raw_df by_physical result t (PlannedTable.parent_table_name t) >>= λ df.
      execute_from raw_df by_physical (put result (PlannedTable.physical_table_name t) df) ts

  unfoldable pub execute : DataFrame → List PlannedTable → Attempt RunError (Dict DataFrame)
  unfolding tables_by_physical execute_from
  execute raw_df tables = execute_from raw_df (tables_by_physical tables) [] tables
