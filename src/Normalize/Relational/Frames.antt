-- ===== src/Normalize/Relational/Frames.antt =====
-- What the data frames of the tables are, and how Spark makes or refuses them.
use elt_pipeline.Prelude.{
  String, Option, none, some, List, ◌≡◌, inl, inr, refl, All, ok, raise, ◌⊎◌, Option-cases,
}
use elt_pipeline.Prelude.Dict.{Dict, get}
use elt_pipeline.Normalize.Plan.{PlannedArrayExplosion, PlannedTable}
use elt_pipeline.Normalize.Relational.{
  Spark, next_explosion, build_root_df, build_child_df, frame_of, analysis_exception,
  root_projections, child_projections, without_marker,
}
use elt_pipeline.Normalize.Relational.Lookups.{In}

module _ (spark : Spark) where
  open spark use {DataFrame}

  -- The data frame of a child is made from that of its parent, a table of the plan by whose array the
  -- child is exploded; that of a root from the raw data.
  abbrev pub FrameIs :
      DataFrame → List PlannedTable → Dict DataFrame → PlannedTable → Option String → Type 0
  FrameIs raw_df tables result t none =
      (made : DataFrame) × (build_root_df spark raw_df t ≡ ok made)
      × (get result (PlannedTable.physical_table_name t) ≡ some made)
  FrameIs raw_df tables result t (some parent) =
      (u : PlannedTable) × (e : PlannedArrayExplosion) × (df : DataFrame) × (made : DataFrame) × In
        u tables
      × (PlannedTable.physical_table_name u ≡ parent)
      × In e (PlannedTable.child_arrays u)
      × (PlannedArrayExplosion.child_table_logical_path e ≡ PlannedTable.logical_path t)
      × (get result parent ≡ some df)
      × (build_child_df spark df t (PlannedArrayExplosion.array_accessor e) ≡ ok made)
      × (get result (PlannedTable.physical_table_name t) ≡ some made)

  -- Spark cannot make the data frame of a table from such a parent's, or from the raw data.
  abbrev pub FailsAt : DataFrame → List PlannedTable → PlannedTable → Option String → Type 0
  FailsAt raw_df tables t none = build_root_df spark raw_df t ≡ raise analysis_exception
  FailsAt raw_df tables t (some parent) =
      (u : PlannedTable) × (e : PlannedArrayExplosion) × (df : DataFrame) × In u tables
      × (PlannedTable.physical_table_name u ≡ parent)
      × In e (PlannedTable.child_arrays u)
      × (PlannedArrayExplosion.child_table_logical_path e ≡ PlannedTable.logical_path t)
      × (build_child_df spark df t (PlannedArrayExplosion.array_accessor e)
          ≡ raise analysis_exception)

  abbrev pub Fails : DataFrame → List PlannedTable → Type 0
  Fails raw_df tables =
      (t : PlannedTable) × In t tables × FailsAt raw_df tables t (PlannedTable.parent_table_name t)

  -- Every table has its data frame.
  abbrev pub AreFrames : DataFrame → List PlannedTable → Dict DataFrame → List PlannedTable → Type 0
  AreFrames raw_df tables result =
      All (λ t. FrameIs raw_df tables result t (PlannedTable.parent_table_name t))

  pub frame_of-child :
      (raw_df : DataFrame) (by_physical : Dict PlannedTable) (result : Dict DataFrame)
      (t u : PlannedTable) (name : String) (df : DataFrame) (e : PlannedArrayExplosion)
      → get by_physical name ≡ some u
      → PlannedTable.physical_table_name u ≡ name
      → get result name ≡ some df
      → next_explosion (PlannedTable.logical_path t) (PlannedTable.child_arrays u) ≡ some e
      → frame_of spark raw_df by_physical result t (some name)
        ≡ build_child_df spark df t (PlannedArrayExplosion.array_accessor e)
  frame_of-child raw_df by_physical result t u name df e known named has first =
      rw known (rw named (rw has (rw first refl)))

  pub child-cases :
      (df : DataFrame) (t : PlannedTable) (accessor : String)
      → ((made : DataFrame) × (build_child_df spark df t accessor ≡ ok made))
        ⊎ (build_child_df spark df t accessor ≡ raise analysis_exception)
  unfolding build_child_df
  child-cases df t accessor = elim (Option-cases (Spark.explode spark accessor df)) [
    | inl fails ↦ inr (rw fails refl)
    | inr (exploded, explodes) ↦
        elim (Option-cases (Spark.select spark (child_projections t) exploded)) [
          | inl fails ↦ inr (rw (explodes, fails) refl)
          | inr (selected, selects) ↦ inl (
            Spark.with_row_id spark (Spark.with_index spark selected),
            rw (explodes, selects) refl,
          )
        ]
  ]

  pub root-cases :
      (df : DataFrame) (t : PlannedTable)
      → ((made : DataFrame) × (build_root_df spark df t ≡ ok made))
        ⊎ (build_root_df spark df t ≡ raise analysis_exception)
  unfolding build_root_df
  root-cases df t = elim (Option-cases (Spark.select spark (root_projections t) df)) [
    | inl fails ↦ inr (rw fails refl)
    | inr (selected, selects) ↦
        inl (Spark.with_row_id spark (without_marker spark selected), rw selects refl)
  ]
