-- ===== src/Lineage/Report.antt =====
-- What `run_lineage_impact_analysis` reports.
use elt_pipeline.Prelude.{
  ℕ, String, Bool, true, ◌≡◌, ◌<◌, refl, inl, inr, some, List, [], ◌∷◌, sort, insert_sorted, ltb,
  Bool-cases, arith, All, ok,
}
use elt_pipeline.Lineage.{
  LineageGraph, LineageEvent, Column, upstream, downstream, bfs_table, bfs_columns,
  build_lineage_graph, same_column, column_neighbours,
}
use elt_pipeline.Lineage.Search.{Found}
use elt_pipeline.Lineage.Search.Paths.{IsFound}
use elt_pipeline.Lineage.Impact.{bfs_table_result, bfs_columns_result}
use elt_pipeline.Lineage.Analysis.{
  ImpactReport, impact_of, analyse, rsplit_dot, split_column, col_sort, run_lineage_impact_analysis,
}

All-insert_sorted :
    {A : Type 0} (P : A → Type 0) (le : A → A → Bool) (x : A) (xs : List A)
    → P x
    → All P xs
    → All P (insert_sorted le x xs)
All-insert_sorted P le x [] p h = (p, tt)
All-insert_sorted P le x (y ∷ ys) p h = elim (Bool-cases (le x y)) [
  | inl before ↦ rw before (p, h)
  | inr behind ↦ rw behind (h.0, All-insert_sorted P le x ys p h.1)
]

All-sort :
    {A : Type 0} (P : A → Type 0) (le : A → A → Bool) (xs : List A) → All P xs → All P (sort le xs)
All-sort P le [] h = tt
All-sort P le (x ∷ xs) h = All-insert_sorted P le x (sort le xs) h.0 (All-sort P le xs h.1)

analyse_ok :
    (graph : LineageGraph) (start : Column) (depth : ℕ) (ups downs : List (Found Column))
    → (up_tables down_tables : List (Found String))
    → bfs_columns graph start upstream depth ≡ some ups
    → bfs_columns graph start downstream depth ≡ some downs
    → bfs_table graph start.0 upstream depth ≡ some up_tables
    → bfs_table graph start.0 downstream depth ≡ some down_tables
    → analyse graph start depth
      ≡ ok (record {
        dataset = start.0;
        column_name = start.1;
        depth = depth;
        up = impact_of ups up_tables;
        down = impact_of downs down_tables;
      })
unfolding analyse
analyse_ok graph start depth ups downs up_tables down_tables e f g h = rw (e, f, g, h) refl

split_ok :
    (column : String) (start : Column)
    → rsplit_dot column ≡ some start
    → split_column column ≡ ok start
split_ok column start h = ground (arith, h)

-- An analysis to a depth above zero, of a column whose text has a dot, gives a report on the two
-- pieces; and every column that it lists is reachable from the start in the direction of its list, in
-- as many steps as its depth says, of which there are at most as many as asked for.
pub run_lineage_impact_analysis_lem :
    (events : List LineageEvent) (column : String) (start : Column) (depth : ℕ)
    → 0 < depth
    → rsplit_dot column ≡ some start
    → (report : ImpactReport) × (run_lineage_impact_analysis events column depth ≡ ok report)
      × All
          (IsFound same_column
            (column_neighbours (build_lineage_graph events) upstream)
            depth
            start)
          report.up.columns
      × All
          (IsFound same_column
            (column_neighbours (build_lineage_graph events) downstream)
            depth
            start)
          report.down.columns
unfolding run_lineage_impact_analysis
run_lineage_impact_analysis_lem events column start depth d split =
    let graph = build_lineage_graph events in
    let (ups, e, found) = bfs_columns_result graph upstream depth start in
    let (downs, f, found') = bfs_columns_result graph downstream depth start in
    let (up_tables, g, known) = bfs_table_result graph upstream depth start.0 in
    let (down_tables, h, known') = bfs_table_result graph downstream depth start.0 in
    let deep : ltb 0 depth ≡ true = ground (arith, d) in
    (
      record {
        dataset = start.0;
        column_name = start.1;
        depth = depth;
        up = impact_of ups up_tables;
        down = impact_of downs down_tables;
      },
      rw (deep, split_ok column start split)
          (analyse_ok graph start depth ups downs up_tables down_tables e f g h),
      All-sort (IsFound same_column (column_neighbours graph upstream) depth start) col_sort ups
          found,
      All-sort (IsFound same_column (column_neighbours graph downstream) depth start) col_sort downs
          found',
    )
