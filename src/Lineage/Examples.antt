-- ===== src/Lineage/Examples.antt =====
-- A lineage of three tables, and the theorems at it.
use elt_pipeline.Prelude.{String, ◌≡◌, refl, none, some, List, [], ◌∷◌, ok, All, arith}
use elt_pipeline.Prelude.Names.{elem, add, sorted, leb_name}
use elt_pipeline.Prelude.Dict.{get, get_or, put}
use elt_pipeline.Prelude.Text.{decimal}
use elt_pipeline.Lineage.{
  LineageEvent, InputField, DatasetRef, upstream, downstream, build_lineage_graph, bfs_table,
  bfs_columns, table_neighbours, column_neighbours, same_column,
}
use elt_pipeline.Lineage.Search.{bfs}
use elt_pipeline.Lineage.Search.Paths.{IsFound}
use elt_pipeline.Lineage.Analysis.{
  ImpactReport, rsplit_dot, run_lineage_impact_analysis, analyse, impact_of, col_sort,
  build_display_lines,
}
use elt_pipeline.Lineage.Report.{run_lineage_impact_analysis_lem}

abbrev table : String → List (String × List InputField) → DatasetRef
table name fields = record { namespace = none; name = some name; fields = fields }

abbrev from : String → String → List InputField
from name column =
    record { namespace = some "elt_pipeline"; name = some name; field_name = some column } ∷ []

abbrev event : DatasetRef → DatasetRef → LineageEvent
event input output = record {
  event_type = "COMPLETE";
  job_namespace = some "elt_pipeline";
  inputs = input ∷ [];
  outputs = output ∷ [];
}

abbrev events : List LineageEvent
events =
    event (table "raw" []) (table "silver" (("net", from "raw" "amount") ∷ []))
    ∷ event (table "silver" []) (table "gold.sum" (("total", from "silver" "net") ∷ []))
    ∷ []

program : Unit {0}
unfolding build_lineage_graph bfs_table bfs_columns table_neighbours column_neighbours get get_or
    put elem add sorted leb_name bfs rsplit_dot run_lineage_impact_analysis impact_of col_sort
    analyse build_display_lines decimal
program = tt

parents :
    bfs_table (build_lineage_graph events) "gold.sum" upstream 5
    ≡ some (("silver", 1) ∷ ("raw", 2) ∷ [])
unfolding program
parents = refl

split : rsplit_dot "gold.sum.total" ≡ some ("gold.sum", "total")
unfolding program
split = refl

run_lineage_impact_analysis_lem_example :
    (report : ImpactReport) × (run_lineage_impact_analysis events "gold.sum.total" 5 ≡ ok report)
    × All
        (IsFound same_column
          (column_neighbours (build_lineage_graph events) upstream)
          5
          ("gold.sum", "total"))
        report.up.columns
    × All
        (IsFound same_column
          (column_neighbours (build_lineage_graph events) downstream)
          5
          ("gold.sum", "total"))
        report.down.columns
run_lineage_impact_analysis_lem_example =
    run_lineage_impact_analysis_lem events "gold.sum.total" ("gold.sum", "total") 5 (omega arith)
      split
