-- ===== src/Maintenance/Examples.antt =====
-- A run over two tables, one named and one found in the catalog.
use elt_pipeline.Prelude.{
  String, Bool, true, false, none, some, List, [], ◌∷◌, ◌==◌, ◌≡◌, refl, if◌then◌else◌, ok, map,
}
use elt_pipeline.Prelude.Int.{pos, negsuc}
use elt_pipeline.Maintenance.Jobs.{Row, Done, Engine, compact, expire_snapshots}
use elt_pipeline.Maintenance.Runner.{MaintenanceConfig, Report, run_maintenance}
use elt_pipeline.Maintenance.Reads.{calls, selection}
use elt_pipeline.Maintenance.Calls.{run_maintenance-calls, tasks, call_of, task_of}

abbrev answer : String → List Row
answer s =
    if s == "SHOW NAMESPACES IN lake.level3"
    then (("namespace", some "level3.sales") ∷ []) ∷ []
    else if s == "SHOW TABLES IN lake.level3.sales"
    then (("namespace", some "sales") ∷ ("tableName", some "orders") ∷ []) ∷ []
    else []

abbrev engine : Engine
engine = record {
  answer = λ before s. ok (answer s);
  catalog_name = "lake";
  days_ago = λ before days. "2024-01-01 00:00:00";
  lower = λ s. s;
}

abbrev config : Bool → MaintenanceConfig
config dry = record {
  table_fqns = "lake.level4.kpi.daily" ∷ [];
  all_level3 = true;
  all_level4 = false;
  operations = compact ∷ expire_snapshots ∷ [];
  snapshot_retain_days = negsuc 2;
  snapshot_retain_last = pos 0;
  orphan_older_than_days = pos 3;
  compact_strategy = "binpack";
  compact_min_input_files = some (pos 5);
  compact_target_file_size_bytes = none;
  dry_run = dry;
}

program : Unit {0}
unfolding run_maintenance
program = tt

abbrev finished : Report
finished = record {
  tables_selected = "lake.level3.sales.orders" ∷ "lake.level4.kpi.daily" ∷ [];
  operations_requested = compact ∷ expire_snapshots ∷ [];
  results =
      record { fqn = "lake.level3.sales.orders"; operation = compact; rows = [] }
      ∷ record { fqn = "lake.level3.sales.orders"; operation = expire_snapshots; rows = [] }
      ∷ record { fqn = "lake.level4.kpi.daily"; operation = compact; rows = [] }
      ∷ record { fqn = "lake.level4.kpi.daily"; operation = expire_snapshots; rows = [] }
      ∷ [];
  dry_run = false;
}

run_gives : Done.result (run_maintenance engine (config false) []) ≡ ok finished
unfolding program
run_gives = refl

run_maintenance-calls_example :
    (Done.result (selection engine (config false) []) ≡ ok (Report.tables_selected finished))
    × (map task_of (Report.results finished)
        ≡ tasks (Report.tables_selected finished) (MaintenanceConfig.operations (config false)))
    × (calls (Done.log (run_maintenance engine (config false) []))
        ≡ map call_of
            (tasks (Report.tables_selected finished) (MaintenanceConfig.operations (config false))))
run_maintenance-calls_example = run_maintenance-calls engine (config false) finished refl run_gives
