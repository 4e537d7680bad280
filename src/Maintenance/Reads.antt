-- ===== src/Maintenance/Reads.antt =====
-- The statements that select tables, and the dry run, which issues no other.
use elt_pipeline.Prelude.{
  String, Bool, true, false, Option, none, some, List, [], ◌∷◌, ◌++◌, ◌≡◌, refl, ap, ◌∙◌, ok,
}
use elt_pipeline.Maintenance.Jobs.{
  Row, Job, Done, Engine, Operation, Statement, call, show_namespaces, show_tables, issue, ask,
  and_then, give,
}
use elt_pipeline.Maintenance.Tables.{
  discover_tables_for_stage, resolve_table_selection, all_domains, domain_tables, or_flat,
  flat_then, domains_then, stage_namespace, fourth_then, stage_if, sorted_set, child_namespace,
}
use elt_pipeline.Maintenance.Runner.{MaintenanceConfig, report, run_selected, run_maintenance}

abbrev pub first_of : List String → String
first_of [] = ""
first_of (s ∷ rest) = s

-- The CALLs of a log: the operations with their first argument.
abbrev pub calls : List Statement → List (Operation × String)
calls [] = []
calls (show_namespaces parent ∷ log) = calls log
calls (show_tables namespace ∷ log) = calls log
calls (call op catalog args ∷ log) = (op, first_of args) ∷ calls log

pub calls-append : (a b : List Statement) → calls (a ++ b) ≡ calls a ++ calls b
calls-append [] b = refl
calls-append (show_namespaces s ∷ a) b = calls-append a b
calls-append (show_tables s ∷ a) b = calls-append a b
calls-append (call op c args ∷ a) b = ap (λ l. (op, first_of args) ∷ l) (calls-append a b)

pub append_nil : {A : Type 0} (xs : List A) → xs ++ [] ≡ xs
append_nil [] = refl
append_nil (x ∷ xs) = ap (λ l. x ∷ l) (append_nil xs)

pub append_assoc : {A : Type 0} (xs ys zs : List A) → (xs ++ ys) ++ zs ≡ xs ++ (ys ++ zs)
append_assoc [] ys zs = refl
append_assoc (x ∷ xs) ys zs = ap (λ l. x ∷ l) (append_assoc xs ys zs)

-- A job that issues no CALL and raises nothing.
abbrev pub Reads : {A : Type 0} → Job A → Type 0
Reads {A} job =
    (log : List Statement)
    → (calls (Done.log (job log)) ≡ calls log) × ((a : A) × (Done.result (job log) ≡ ok a))

give-Reads : {A : Type 0} (a : A) → Reads (give a)
give-Reads a = λ log. (refl, (a, refl))

module _ {A B : Type 0} where
  pub and_then_ok :
      (job : Job A) (next : A → Job B) (log : List Statement) {a : A}
      → Done.result (job log) ≡ ok a
      → and_then job next log ≡ next a (Done.log (job log))
  and_then_ok job next log e = rw e refl

  and_then-Reads :
      (job : Job A) (next : A → Job B)
      → Reads job
      → ((a : A) → Reads (next a))
      → Reads (and_then job next)
  and_then-Reads job next first rest = λ log.
      let one = first log in
      let two = rest one.1.0 (Done.log (job log)) in
      let same = and_then_ok job next log one.1.1 in
      (ap (λ d. calls (Done.log d)) same ∙ two.0 ∙ one.0, (two.1.0, ap Done.result same ∙ two.1.1))

module _ (e : Engine) where
  ask_namespaces-Reads : (parent : String) → Reads (ask e (show_namespaces parent))
  unfolding ask issue
  ask_namespaces-Reads parent =
      λ log. ((calls-append log (show_namespaces parent ∷ []) ∙ append_nil (calls log)), (_, refl))

  ask_tables-Reads : (namespace : String) → Reads (ask e (show_tables namespace))
  unfolding ask issue
  ask_tables-Reads namespace =
      λ log. ((calls-append log (show_tables namespace ∷ []) ∙ append_nil (calls log)), (_, refl))

  domain_tables-Reads :
      (name : Option String) (parent : String) → Reads (domain_tables e name parent)
  domain_tables-Reads none parent = give-Reads []
  domain_tables-Reads (some name) parent =
      and_then-Reads (ask e (show_tables (child_namespace (Engine.catalog_name e) parent name))) _
        (ask_tables-Reads (child_namespace (Engine.catalog_name e) parent name))
        (λ rows. give-Reads _)

  all_domains-Reads : (parent : String) (rows : List Row) → Reads (all_domains e parent rows)
  unfolding all_domains
  all_domains-Reads parent [] = give-Reads []
  all_domains-Reads parent (row ∷ rows) =
      and_then-Reads (domain_tables e _ parent) _ (domain_tables-Reads _ parent) (λ tables.
        and_then-Reads (all_domains e parent rows) _ (all_domains-Reads parent rows)
          (λ rest. give-Reads (tables ++ rest)))

  or_flat-Reads : (parent : String) (tables : List String) → Reads (or_flat e parent tables)
  or_flat-Reads parent [] =
      and_then-Reads (ask e (show_tables parent)) _ (ask_tables-Reads parent) (λ rows. give-Reads _)
  or_flat-Reads parent (t ∷ tables) = give-Reads (t ∷ tables)

  flat_then-Reads : (parent : String) (tables : List String) → Reads (flat_then e parent tables)
  flat_then-Reads parent tables =
      and_then-Reads (or_flat e parent tables) (λ found. give (sorted_set found))
        (or_flat-Reads parent tables) (λ found. give-Reads (sorted_set found))

  domains_then-Reads : (parent : String) (rows : List Row) → Reads (domains_then e parent rows)
  domains_then-Reads parent rows =
      and_then-Reads (all_domains e parent rows) (flat_then e parent)
        (all_domains-Reads parent rows) (flat_then-Reads parent)

  discover-Reads : (stage : String) → Reads (discover_tables_for_stage e stage)
  unfolding discover_tables_for_stage
  discover-Reads stage =
      and_then-Reads (ask e (show_namespaces (stage_namespace e stage)))
        (domains_then e (stage_namespace e stage)) (ask_namespaces-Reads (stage_namespace e stage))
        (domains_then-Reads (stage_namespace e stage))

  stage_if-Reads : (wanted : Bool) (stage : String) → Reads (stage_if e wanted stage)
  stage_if-Reads false stage = give-Reads []
  stage_if-Reads true stage = discover-Reads stage

  fourth_then-Reads :
      (named : List String) (wanted : Bool) (third : List String)
      → Reads (fourth_then e named wanted third)
  fourth_then-Reads named wanted third =
      and_then-Reads (stage_if e wanted "level4")
        (λ fourth. give (sorted_set (named ++ third ++ fourth))) (stage_if-Reads wanted "level4")
        (λ fourth. give-Reads (sorted_set (named ++ third ++ fourth)))

  pub resolve_table_selection-Reads :
      (named : List String) (third fourth : Bool)
      → Reads (resolve_table_selection e named third fourth)
  unfolding resolve_table_selection
  resolve_table_selection-Reads named third fourth =
      and_then-Reads (stage_if e third "level3") (fourth_then e named fourth)
        (stage_if-Reads third "level3") (fourth_then-Reads named fourth)

  -- The tables that a configuration selects, with the engine in a state.
  abbrev pub selection : MaintenanceConfig → Job (List String)
  selection config =
      resolve_table_selection e (MaintenanceConfig.table_fqns config)
        (MaintenanceConfig.all_level3 config) (MaintenanceConfig.all_level4 config)

  -- A dry run that starts with no statement issued gives a report without results, of the tables
  -- selected, and has issued no CALL.
  pub run_maintenance_dry_run :
      (config : MaintenanceConfig)
      → MaintenanceConfig.dry_run config ≡ true
      → (selected : List String) × (Done.result (selection config []) ≡ ok selected)
        × (Done.result (run_maintenance e config []) ≡ ok (report e config selected []))
        × (calls (Done.log (run_maintenance e config [])) ≡ [])
  unfolding run_maintenance
  run_maintenance_dry_run config dry =
      let found =
        resolve_table_selection-Reads (MaintenanceConfig.table_fqns config)
          (MaintenanceConfig.all_level3 config) (MaintenanceConfig.all_level4 config) [] in
      let same =
        and_then_ok (selection config) (run_selected e (MaintenanceConfig.dry_run config) config) []
          found.1.1 in
      let stop = ap (λ b. run_selected e b config found.1.0 (Done.log (selection config []))) dry in
      (
        found.1.0,
        found.1.1,
        ap Done.result (same ∙ stop),
        ap (λ d. calls (Done.log d)) (same ∙ stop) ∙ found.0,
      )
