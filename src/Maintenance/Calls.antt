-- ===== src/Maintenance/Calls.antt =====
-- Which CALLs a maintenance run issues.
use elt_pipeline.Prelude.{
  String, Bool, true, false, List, [], ◌∷◌, ◌++◌, ◌==◌, ◌≡◌, refl, sym, ap, ◌∙◌, subst,
  if◌then◌else◌, map, Attempt, ok, raise,
}
use elt_pipeline.Prelude.Text.{strip}
use elt_pipeline.Maintenance.Jobs.{
  Row, Job, Done, Engine, Fault, Operation, compact, expire_snapshots, remove_orphans,
  rewrite_manifests, Statement, call, sort_not_exposed, bad_strategy, issue, and_then, next_job,
  texts, give, fail,
}
use elt_pipeline.Maintenance.Runner.{
  MaintenanceConfig, TableResult, Report, table_arg, compact_args, expire_args, orphan_args,
  run_compact, run_expire_snapshots, run_remove_orphans, run_rewrite_manifests, run_operation,
  each_operation, each_table, report, op_result, add_results, call_and_collect, run_selected,
  run_maintenance,
}
use elt_pipeline.Maintenance.Reads.{
  append_assoc, append_nil, calls, calls-append, first_of, resolve_table_selection-Reads, selection,
}

-- The operations of a run, table by table.
abbrev pub with_table : String → List Operation → List (String × Operation)
with_table fqn [] = []
with_table fqn (op ∷ ops) = (fqn, op) ∷ with_table fqn ops

abbrev pub tasks : List String → List Operation → List (String × Operation)
tasks [] ops = []
tasks (fqn ∷ fqns) ops = with_table fqn ops ++ tasks fqns ops

-- The CALL of a task.
abbrev pub call_of : String × Operation → Operation × String
call_of task = (task.1, table_arg task.0)

abbrev pub task_of : TableResult → String × Operation
task_of r = (TableResult.fqn r, TableResult.operation r)

map-append : {A B : Type 0} (f : A → B) (xs ys : List A) → map f (xs ++ ys) ≡ map f xs ++ map f ys
map-append f [] ys = refl
map-append f (x ∷ xs) ys = ap (λ l. f x ∷ l) (map-append f xs ys)

-- A job that, if it returns, issued the CALLs of the tasks of its results, which are these.
abbrev Performs : Job (List TableResult) → List (String × Operation) → Type 0
Performs job ts =
    (log : List Statement) (rs : List TableResult)
    → Done.result (job log) ≡ ok rs
    → (map task_of rs ≡ ts) × (calls (Done.log (job log)) ≡ calls log ++ map call_of ts)

-- A job whose rows come from the CALL of a task.
abbrev CallsFor : Job (List Row) → String × Operation → Type 0
CallsFor job task =
    (log : List Statement) (rows : List Row)
    → Done.result (job log) ≡ ok rows
    → calls (Done.log (job log)) ≡ calls log ++ call_of task ∷ []

module _ {A B : Type 0} where
  next_job_returns :
      (r : Attempt Fault A) (log : List Statement) (next : A → Job B) {b : B}
      → Done.result (next_job r log next) ≡ ok b
      → (a : A) × (r ≡ ok a)
        × (Done.result (next a log) ≡ ok b)
        × (Done.log (next_job r log next) ≡ Done.log (next a log))
  next_job_returns (raise fault) log next returns = absurd cc
  next_job_returns (ok a) log next returns = (a, refl, returns, refl)

  -- A chain that returns: so did its parts.
  and_then_returns :
      (job : Job A) (next : A → Job B) (log : List Statement) {b : B}
      → Done.result (and_then job next log) ≡ ok b
      → (a : A) × (Done.result (job log) ≡ ok a)
        × (Done.result (next a (Done.log (job log))) ≡ ok b)
        × (Done.log (and_then job next log) ≡ Done.log (next a (Done.log (job log))))
  and_then_returns job next log returns =
      next_job_returns (Done.result (job log)) (Done.log (job log)) next returns

module _ (e : Engine) where
  call_and_collect-CallsFor :
      (op : Operation) (fqn : String) (args : List Statement → List String)
      → ((log : List Statement) → first_of (args log) ≡ table_arg fqn)
      → CallsFor (λ log. call_and_collect e op (args log) log) (fqn, op)
  unfolding issue
  call_and_collect-CallsFor op fqn args first = λ log rows returns.
      calls-append log (call op (Engine.catalog_name e) (args log) ∷ [])
      ∙ ap (λ s. calls log ++ (op, s) ∷ []) (first log)

  either-CallsFor :
      (sort binpack : Bool) (job : Job (List Row)) (task : String × Operation) (f g : Fault)
      → CallsFor job task
      → CallsFor (if sort then fail f else if binpack then job else fail g) task
  either-CallsFor true binpack job task f g calls_for = λ log rows returns. absurd cc
  either-CallsFor false true job task f g calls_for = calls_for
  either-CallsFor false false job task f g calls_for = λ log rows returns. absurd cc

  run_compact-CallsFor :
      (config : MaintenanceConfig) (fqn : String)
      → CallsFor (run_compact e config fqn) (fqn, compact)
  unfolding run_compact compact_args
  run_compact-CallsFor config fqn =
      either-CallsFor (Engine.lower e (strip (MaintenanceConfig.compact_strategy config)) == "sort")
        (Engine.lower e (strip (MaintenanceConfig.compact_strategy config)) == "binpack")
        (call_and_collect e compact (compact_args config fqn)) (fqn, compact) sort_not_exposed
        (bad_strategy (MaintenanceConfig.compact_strategy config))
        (call_and_collect-CallsFor compact fqn (λ log. compact_args config fqn) (λ log. refl))

  run_operation-CallsFor :
      (config : MaintenanceConfig) (fqn : String) (op : Operation)
      → CallsFor (run_operation e config fqn op) (fqn, op)
  unfolding run_operation run_expire_snapshots run_remove_orphans run_rewrite_manifests expire_args
      orphan_args
  run_operation-CallsFor config fqn compact = run_compact-CallsFor config fqn
  run_operation-CallsFor config fqn expire_snapshots =
      call_and_collect-CallsFor expire_snapshots fqn (λ log. expire_args e (texts log) config fqn)
        (λ log. refl)
  run_operation-CallsFor config fqn remove_orphans =
      call_and_collect-CallsFor remove_orphans fqn (λ log. orphan_args e (texts log) config fqn)
        (λ log. refl)
  run_operation-CallsFor config fqn rewrite_manifests =
      call_and_collect-CallsFor rewrite_manifests fqn (λ log. table_arg fqn ∷ []) (λ log. refl)

  ok_eq : {rs ss : List TableResult} → Done.result (give rs []) ≡ ok ss → rs ≡ ss
  ok_eq {rs} {ss} e = cc

  each_operation-Performs :
      (config : MaintenanceConfig) (fqn : String) (ops : List Operation)
      → Performs (each_operation e config fqn ops) (with_table fqn ops)
  unfolding each_operation
  each_operation-Performs config fqn [] =
      λ log rs returns. (ap (map task_of) (sym (ok_eq returns)), sym (append_nil (calls log)))
  each_operation-Performs config fqn (op ∷ ops) = λ log rs returns.
      let first =
        and_then_returns (run_operation e config fqn op)
          (op_result e fqn op (each_operation e config fqn ops)) log returns in
      let here = run_operation-CallsFor config fqn op log first.0 first.1 in
      let second =
        and_then_returns (each_operation e config fqn ops)
          (λ results. give (record { fqn = fqn; operation = op; rows = first.0 } ∷ results))
          (Done.log (run_operation e config fqn op log)) first.2 in
      let later =
        each_operation-Performs config fqn ops (Done.log (run_operation e config fqn op log))
          second.0 second.1 in
      (
        ap (map task_of) (sym (ok_eq second.2)) ∙ ap (λ l. (fqn, op) ∷ l) later.0,
        ap calls (first.3 ∙ second.3)
            ∙ later.1
            ∙ ap (λ l. l ++ map call_of (with_table fqn ops)) here
            ∙ append_assoc (calls log) (call_of (fqn, op) ∷ []) (map call_of (with_table fqn ops)),
      )

  each_table-Performs :
      (config : MaintenanceConfig) (fqns : List String)
      → Performs (each_table e config fqns) (tasks fqns (MaintenanceConfig.operations config))
  unfolding each_table
  each_table-Performs config [] =
      λ log rs returns. (ap (map task_of) (sym (ok_eq returns)), sym (append_nil (calls log)))
  each_table-Performs config (fqn ∷ fqns) = λ log rs returns.
      let ops = MaintenanceConfig.operations config in
      let first =
        and_then_returns (each_operation e config fqn ops)
          (add_results e (each_table e config fqns)) log returns in
      let here = each_operation-Performs config fqn ops log first.0 first.1 in
      let second =
        and_then_returns (each_table e config fqns) (λ rest. give (first.0 ++ rest))
          (Done.log (each_operation e config fqn ops log)) first.2 in
      let later =
        each_table-Performs config fqns (Done.log (each_operation e config fqn ops log)) second.0
          second.1 in
      (
        ap (map task_of) (sym (ok_eq second.2))
            ∙ map-append task_of first.0 second.0
            ∙ ap (λ l. l ++ map task_of second.0) here.0
            ∙ ap (λ l. with_table fqn ops ++ l) later.0,
        ap calls (first.3 ∙ second.3)
            ∙ later.1
            ∙ ap (λ l. l ++ map call_of (tasks fqns ops)) here.1
            ∙ append_assoc (calls log) (map call_of (with_table fqn ops))
                (map call_of (tasks fqns ops))
            ∙ ap (λ l. calls log ++ l)
                (sym (map-append call_of (with_table fqn ops) (tasks fqns ops))),
      )

  report_eq : {r s : Report} → Done.result (give r []) ≡ ok s → r ≡ s
  report_eq {r} {s} e = cc

  -- A run that is no dry run, starts with no statement issued and returns a report has gone
  -- through the tables selected and for each through the operations, in order: the results are of
  -- these tasks, and the CALLs issued are one for each, with the table's name as first argument.
  pub run_maintenance-calls :
      (config : MaintenanceConfig) (r : Report)
      → MaintenanceConfig.dry_run config ≡ false
      → Done.result (run_maintenance e config []) ≡ ok r
      → (Done.result (selection e config []) ≡ ok (Report.tables_selected r))
        × (map task_of (Report.results r)
            ≡ tasks (Report.tables_selected r) (MaintenanceConfig.operations config))
        × (calls (Done.log (run_maintenance e config []))
            ≡ map call_of (tasks (Report.tables_selected r) (MaintenanceConfig.operations config)))
  unfolding run_maintenance
  run_maintenance-calls config r real returns =
      let ops = MaintenanceConfig.operations config in
      let log = Done.log (selection e config []) in
      let first =
        and_then_returns (selection e config)
          (run_selected e (MaintenanceConfig.dry_run config) config) [] returns in
      let goes_on =
        subst (λ b. Done.result (run_selected e b config first.0 log) ≡ ok r) real first.2 in
      let second =
        and_then_returns (each_table e config first.0)
          (λ results. give (report e config first.0 results)) log goes_on in
      let performs = each_table-Performs config first.0 log second.0 second.1 in
      let found =
        resolve_table_selection-Reads e (MaintenanceConfig.table_fqns config)
          (MaintenanceConfig.all_level3 config) (MaintenanceConfig.all_level4 config) [] in
      subst
        (λ x.
          (Done.result (selection e config []) ≡ ok (Report.tables_selected x))
          × (map task_of (Report.results x) ≡ tasks (Report.tables_selected x) ops)
          × (calls (Done.log (run_maintenance e config []))
              ≡ map call_of (tasks (Report.tables_selected x) ops)))
        (report_eq second.2)
        (
          first.1,
          performs.0,
          ap calls first.3
              ∙ ap (λ b. calls (Done.log (run_selected e b config first.0 log))) real
              ∙ ap calls second.3
              ∙ performs.1
              ∙ ap (λ l. l ++ map call_of (tasks first.0 ops)) found.0,
        )
