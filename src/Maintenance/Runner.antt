-- ===== src/Maintenance/Runner.antt =====
-- The operations on a table, and the runner that goes through the tables.
use elt_pipeline.Prelude.{
  ℕ, suc, String, Bool, true, false, Option, none, some, List, [], ◌∷◌, ◌++◌, ◌==◌, eqb,
  if◌then◌else◌, max,
}
use Prim.Native.Char.{code}
use elt_pipeline.Prelude.Text.{concat, strip, decimal}
use elt_pipeline.Prelude.Int.{ℤ, pos, negsuc}
use elt_pipeline.Maintenance.Jobs.{
  Row, Job, Engine, Operation, compact, expire_snapshots, remove_orphans, rewrite_manifests, call,
  issue, and_then, give, fail, bad_strategy, sort_not_exposed, joined, texts,
}
use elt_pipeline.Maintenance.Tables.{resolve_table_selection}

-- MaintenanceConfig
pub record MaintenanceConfig : Type 0 where
  pub table_fqns : List String
  pub all_level3 : Bool
  pub all_level4 : Bool
  pub operations : List Operation
  pub snapshot_retain_days : ℤ
  pub snapshot_retain_last : ℤ
  pub orphan_older_than_days : ℤ
  pub compact_strategy : String
  pub compact_min_input_files : Option ℤ
  pub compact_target_file_size_bytes : Option ℤ
  pub dry_run : Bool

-- MaintenanceTableResult
pub record TableResult : Type 0 where
  pub fqn : String
  pub operation : Operation
  pub rows : List Row

-- MaintenanceReport without its times.
pub record Report : Type 0 where
  pub tables_selected : List String
  pub operations_requested : List Operation
  pub results : List TableResult
  pub dry_run : Bool

-- `value.replace("'", "''")`
unfoldable pub double_apostrophes : String → String
double_apostrophes String.[] = String.[]
double_apostrophes (String.◌∷◌ c s) =
    let rest = double_apostrophes s in
    if eqb (code c) 39 then String.◌∷◌ c (String.◌∷◌ c rest) else String.◌∷◌ c rest

-- `_literal_table_arg`
unfoldable pub literal_table_arg : String → String
unfolding double_apostrophes
literal_table_arg value = concat "'" (concat (double_apostrophes value) "'")

-- `str(n)`
abbrev pub int_text : ℤ → String
int_text (pos n) = decimal n
int_text (negsuc n) = concat "-" (decimal (suc n))

-- `max(low, n)`
abbrev pub floored : ℕ → ℤ → ℕ
floored low (pos n) = max low n
floored low (negsuc n) = low

abbrev pub table_arg : String → String
table_arg table_fqn = concat "table => " (literal_table_arg table_fqn)

abbrev entry : String → Option ℤ → List String
entry key none = []
entry key (some n) =
    concat (literal_table_arg key) (concat ", " (literal_table_arg (int_text n))) ∷ []

abbrev options_arg : List String → List String
options_arg [] = []
options_arg (part ∷ parts) = concat "options => MAP(" (concat (joined (part ∷ parts)) ")") ∷ []

-- The arguments of the CALLs.
unfoldable pub compact_args : MaintenanceConfig → String → List String
unfolding literal_table_arg decimal
compact_args config table_fqn =
    table_arg table_fqn
    ∷ options_arg (
        entry "min-input-files" (MaintenanceConfig.compact_min_input_files config)
        ++ entry "target-file-size-bytes" (MaintenanceConfig.compact_target_file_size_bytes config))

abbrev pub older_than : String → String
older_than time = concat "older_than => TIMESTAMP " (literal_table_arg time)

unfoldable pub expire_args : Engine → List String → MaintenanceConfig → String → List String
unfolding literal_table_arg decimal
expire_args e before config table_fqn =
    table_arg table_fqn
    ∷ older_than
        (Engine.days_ago e before (floored 0 (MaintenanceConfig.snapshot_retain_days config)))
    ∷ concat "retain_last => " (decimal (floored 1 (MaintenanceConfig.snapshot_retain_last config)))
    ∷ []

unfoldable pub orphan_args : Engine → List String → MaintenanceConfig → String → List String
unfolding literal_table_arg
orphan_args e before config table_fqn =
    table_arg table_fqn
    ∷ older_than
        (Engine.days_ago e before (floored 1 (MaintenanceConfig.orphan_older_than_days config)))
    ∷ []

module _ (e : Engine) where
  -- `_call_and_collect`
  abbrev pub call_and_collect : Operation → List String → Job (List Row)
  call_and_collect operation args = issue e (call operation (Engine.catalog_name e) args)

  unfoldable pub run_compact : MaintenanceConfig → String → Job (List Row)
  unfolding strip compact_args issue
  run_compact config table_fqn =
      let strategy = Engine.lower e (strip (MaintenanceConfig.compact_strategy config)) in
      if strategy == "sort"
      then fail sort_not_exposed
      else if strategy == "binpack"
      then call_and_collect compact (compact_args config table_fqn)
      else fail (bad_strategy (MaintenanceConfig.compact_strategy config))

  unfoldable pub run_expire_snapshots : MaintenanceConfig → String → Job (List Row)
  unfolding expire_args issue
  run_expire_snapshots config table_fqn log =
      call_and_collect expire_snapshots (expire_args e (texts log) config table_fqn) log

  unfoldable pub run_remove_orphans : MaintenanceConfig → String → Job (List Row)
  unfolding orphan_args issue
  run_remove_orphans config table_fqn log =
      call_and_collect remove_orphans (orphan_args e (texts log) config table_fqn) log

  unfoldable pub run_rewrite_manifests : String → Job (List Row)
  unfolding literal_table_arg issue
  run_rewrite_manifests table_fqn = call_and_collect rewrite_manifests (table_arg table_fqn ∷ [])

  unfoldable pub run_operation : MaintenanceConfig → String → Operation → Job (List Row)
  unfolding run_compact run_expire_snapshots run_remove_orphans run_rewrite_manifests
  run_operation config fqn compact = run_compact config fqn
  run_operation config fqn expire_snapshots = run_expire_snapshots config fqn
  run_operation config fqn remove_orphans = run_remove_orphans config fqn
  run_operation config fqn rewrite_manifests = run_rewrite_manifests fqn

  abbrev pub op_result :
      String → Operation → Job (List TableResult) → List Row → Job (List TableResult)
  op_result fqn op later rows =
      and_then later (λ results. give (record { fqn = fqn; operation = op; rows = rows } ∷ results))

  abbrev pub add_results : Job (List TableResult) → List TableResult → Job (List TableResult)
  add_results later results = and_then later (λ rest. give (results ++ rest))

  -- The two loops of `run_maintenance`.
  unfoldable pub each_operation :
      MaintenanceConfig → String → List Operation → Job (List TableResult)
  unfolding run_operation
  each_operation config fqn [] = give []
  each_operation config fqn (op ∷ ops) =
      and_then (run_operation config fqn op) (op_result fqn op (each_operation config fqn ops))

  unfoldable pub each_table : MaintenanceConfig → List String → Job (List TableResult)
  unfolding each_operation
  each_table config [] = give []
  each_table config (fqn ∷ fqns) =
      and_then (each_operation config fqn (MaintenanceConfig.operations config))
        (add_results (each_table config fqns))

  abbrev pub report : MaintenanceConfig → List String → List TableResult → Report
  report config selected results = record {
    tables_selected = selected;
    operations_requested = MaintenanceConfig.operations config;
    results = results;
    dry_run = MaintenanceConfig.dry_run config;
  }

  abbrev pub run_selected : Bool → MaintenanceConfig → List String → Job Report
  run_selected true config selected = give (report config selected [])
  run_selected false config selected =
      and_then (each_table config selected) (λ results. give (report config selected results))

  unfoldable pub run_maintenance : MaintenanceConfig → Job Report
  unfolding resolve_table_selection each_table
  run_maintenance config =
      and_then
        (resolve_table_selection e (MaintenanceConfig.table_fqns config)
          (MaintenanceConfig.all_level3 config) (MaintenanceConfig.all_level4 config))
        (run_selected (MaintenanceConfig.dry_run config) config)
