-- ===== src/Normalize/Relational/Returns.antt =====
-- A run of a plan whose tables differ in their paths gives each table its data frame, or Spark's
-- exception.
use elt_pipeline.Prelude.{String, some, List, ◌≡◌, ok, raise, ◌⊎◌}
use elt_pipeline.Prelude.Dict.{Dict, get}
use elt_pipeline.Normalize.Plan.{PlannedTable}
use elt_pipeline.Normalize.Planner.Parents.{Lists, Offers}
use elt_pipeline.Normalize.Relational.{Spark, execute_from, analysis_exception}
use elt_pipeline.Normalize.Relational.Lookups.{In, Unnamed}
use elt_pipeline.Normalize.Relational.Frames.{Fails, AreFrames}

module _ (spark : Spark) where
  open spark use {DataFrame}

  -- The arrays on offer are those of tables that are known, have a frame, and are not to come.
  abbrev IsReady :
      Dict PlannedTable → List PlannedTable → Dict DataFrame → List PlannedTable → Offers → Type 0
  IsReady by_physical tables result ts S =
      (name path : String)
      → S name path
      → (u : PlannedTable) × (df : DataFrame) × In u tables
        × (PlannedTable.physical_table_name u ≡ name)
        × (get by_physical name ≡ some u)
        × Lists path (PlannedTable.child_arrays u)
        × (get result name ≡ some df)
        × Unnamed name ts

  -- What the loop needs, and what it leaves: the frames of its tables, and those of other names.
  abbrev Runs :
      DataFrame
      → Dict PlannedTable
      → List PlannedTable
      → Dict DataFrame
      → List PlannedTable
      → Type 0
  Runs raw_df by_physical tables result ts =
      ((final : Dict DataFrame) × (execute_from spark raw_df by_physical result ts ≡ ok final)
        × ((name : String) → Unnamed name ts → get final name ≡ get result name)
        × AreFrames spark raw_df tables final ts)
      ⊎ ((execute_from spark raw_df by_physical result ts ≡ raise analysis_exception)
          × Fails spark raw_df tables)
