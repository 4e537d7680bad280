-- ===== src/Maintenance/Jobs.antt =====
-- Statements to the engine, and jobs that issue them. The engine's answer to a statement may depend
-- on those before it, so a job carries the statements issued so far.
use elt_pipeline.Prelude.{String, ℕ, List, [], ◌∷◌, ◌++◌, Option, Attempt, ok, raise}
use elt_pipeline.Prelude.Text.{concat}

-- MaintenanceOperation
pub data Operation : Type 0 where
  compact : Operation
  expire_snapshots : Operation
  remove_orphans : Operation
  rewrite_manifests : Operation

-- The Iceberg procedure of an operation.
abbrev pub procedure : Operation → String
procedure compact = "rewrite_data_files"
procedure expire_snapshots = "expire_snapshots"
procedure remove_orphans = "remove_orphan_files"
procedure rewrite_manifests = "rewrite_manifests"

pub data Statement : Type 0 where
  show_namespaces : String → Statement
  show_tables : String → Statement
  -- the catalog and the arguments
  call : Operation → String → List String → Statement

abbrev pub joined : List String → String
joined [] = ""
joined (s ∷ []) = s
joined (s ∷ t ∷ rest) = concat s (concat ", " (joined (t ∷ rest)))

-- The text that `spark.sql` is given.
unfoldable pub render : Statement → String
render (show_namespaces parent) = concat "SHOW NAMESPACES IN " parent
render (show_tables namespace) = concat "SHOW TABLES IN " namespace
render (call operation catalog args) = concat "CALL " (
    concat catalog
      (concat ".system." (concat (procedure operation) (concat "(" (concat (joined args) ")")))))

-- ValueError, NotImplementedError, and what the engine raises.
pub data Fault : Type 0 where
  bad_strategy : String → Fault
  sort_not_exposed : Fault
  engine_error : String → Fault

-- A row of an answer: its columns in order, with their values as texts.
abbrev pub Row : Type 0
Row = List (String × Option String)

-- What the engine and the clock give: the rows of a text after the texts before it, the name of
-- the catalog, the time some days ago as "%Y-%m-%d %H:%M:%S", and `str.lower`.
pub record Engine : Type 0 where
  pub answer : List String → String → Attempt Fault (List Row)
  pub catalog_name : String
  pub days_ago : List String → ℕ → String
  pub lower : String → String

pub record Done (A : Type 0) : Type 0 where
  pub log : List Statement
  pub result : Attempt Fault A

abbrev pub Job : Type 0 → Type 0
Job A = List Statement → Done A

abbrev pub texts : List Statement → List String
texts [] = []
texts (s ∷ rest) = render s ∷ texts rest

module _ {A B : Type 0} where
  abbrev pub next_job : Attempt Fault A → List Statement → (A → Job B) → Done B
  next_job (raise fault) log next = record { log = log; result = raise fault }
  next_job (ok a) log next = next a log

  abbrev pub and_then : Job A → (A → Job B) → Job B
  and_then job next log = next_job (Done.result (job log)) (Done.log (job log)) next

module _ {A : Type 0} where
  abbrev pub give : A → Job A
  give a log = record { log = log; result = ok a }

  abbrev pub fail : Fault → Job A
  fail fault log = record { log = log; result = raise fault }

module _ (e : Engine) where
  -- `spark.sql(text).collect()`
  unfoldable pub issue : Statement → Job (List Row)
  unfolding render
  issue s log = record { log = log ++ s ∷ []; result = Engine.answer e (texts log) (render s) }

  abbrev rows_or_none : Attempt Fault (List Row) → List Row
  rows_or_none (raise fault) = []
  rows_or_none (ok rows) = rows

  -- The same, with no rows where it raises.
  unfoldable pub ask : Statement → Job (List Row)
  unfolding issue
  ask s log = record {
    log = Done.log (issue s log);
    result = ok (rows_or_none (Done.result (issue s log)));
  }
