-- ===== src/Lib.antt =====
-- A verification library of elt_pipeline, a runner of extract-load-transform jobs: it ingests sources
-- to files with checkpoints, normalises them, runs SQL models on them under data contracts and data
-- checks, and runs plans of such jobs. The parts, the files that model them, and the code:
--
-- - Schedule: plans of jobs and their runs. Schedule/Model.antt has the pydantic models and their
--   validators (src/elt_pipeline/shared/scheduler.py), with `raise` for a ValueError;
--   Schedule/Order.antt is `topological_sort_schedule_jobs` and Schedule/Plan.antt
--   `validate_dependencies`. Schedule/Sensor.antt has the sensors and Schedule/Run.antt the runner
--   `_run_schedule_plan` of src/elt_pipeline/_cli_main.py. The runner sorts the jobs of a plan, waits
--   for the sensor of a job, tries the job, and keeps the first exit code. What it asks of the outside
--   (files, HTTP, subprocesses, random numbers, the clock) is a record of functions,
--   Schedule/World.antt, whose answers may depend on how many questions came before. The local
--   variables of the runner are the record RunState in Schedule/Rows.antt, and Schedule/Run/Steps.antt
--   is its step relation, on which the invariants are proved.
-- - Ingest: Ingest/State.antt is the checkpoint store (src/elt_pipeline/ingest/state.py, the documents
--   of src/elt_pipeline/ingest/models.py, and the path of `LocalArtifactLayout.state_file` in
--   src/elt_pipeline/ingest/storage.py). The files below the root are a function from paths, and the
--   text of a document is pydantic's.
--   Ingest/Kafka.antt is the Kafka connector of src/elt_pipeline/ingest/connectors/kafka.py on the log
--   that src/elt_pipeline/ingest/connectors/local_kafka.py reads.
-- - Normalize: Normalize/Identifiers.antt has the names of tables and columns,
--   src/elt_pipeline/normalize/_policy.py; Normalize/Plan.antt the plans of
--   src/elt_pipeline/normalize/planner.py, and Normalize/Planner.antt its `_PlanBuilder`, which splits a
--   schema into tables. The tables that frames share are a store, a frame has the place of its table
--   in it, and Normalize/Planner/Described.antt describes the plan without a store.
--   Normalize/Relational.antt is `SparkRelationalizer` of src/elt_pipeline/normalize/spark_runner.py,
--   which makes a data frame for each table of a plan, or stops with an exception of Spark.
-- - Sql: Sql/Contract.antt is src/elt_pipeline/sql/_contract_enforcement.py, with the type names in
--   Sql/Contract/Types.antt; Sql/Merge.antt is src/elt_pipeline/sql/merge_sql_generator.py, and
--   Sql/Graph.antt the references and the selection of src/elt_pipeline/sql/graph.py, whose sort is
--   Sql/Graph/Sort.antt.
-- - Lineage: Lineage.antt and Lineage/Analysis.antt are src/elt_pipeline/shared/lineage_impact.py, and
--   Lineage/Search.antt is the breadth-first search that its two functions share.
-- - Config: Config/Tree.antt is the deep merge of src/elt_pipeline/config/loader.py, whose dicts are
--   trees, and Config/Resolve.antt the resolution of an entity and of the runtime layers, with the
--   models of src/elt_pipeline/config/models.py.
-- - Quality: the built-in checks of src/elt_pipeline/shared/quality.py. Quality/Checks.antt has the
--   models, Quality/Rows.antt and Quality/Unique.antt the loops over the records, and
--   Quality/Evaluate.antt the verdicts and results. Numbers, times and regular expressions are those
--   of the parameter Quality/Host.antt.
-- - Maintenance: the runner of src/elt_pipeline/maintenance/__init__.py. Maintenance/Jobs.antt has the
--   statements, which a job issues to the engine one after the other, Maintenance/Tables.antt the
--   selection of tables, and Maintenance/Runner.antt the procedures and the loops. The answers of
--   the engine and the clock are the parameter Engine.
-- - Prelude: what they share, among it Python's dict as a list of entries in the order of insertion
--   (Prelude/Dict.antt), sets of names as lists (Prelude/Names.antt), and code that raises
--   (Prelude/Attempts.antt).
--
-- Numbers and bounds: Python's integers do not overflow, and seconds are counted in thousandths. The
-- product of a float and a power of two in the HTTP backoff raises from the exponent 1024, which
-- Schedule/Sensor.antt has; other limits of floats are left out.
-- Loops that the source ends by a condition run on fuel. The sort has a round for each job name, since
-- each name is queued once; a sensor has a round for each thousandth of a second up to its deadline,
-- and one, since it sleeps that long between two polls; a search has a round for each neighbour in the
-- graph, and one, since each node is queued once; a selection of models has one for each selected model
-- and for each model, since each is put on the stack once; the sort of SQL models has one for each id,
-- since each is placed once.
--
-- Not modelled: the texts of messages, log lines and wall clock fields; the `metadata` of checkpoints;
-- the directories that are made for a file, failing writes, and the assertion on the root path;
-- the TypeError of a freshness check whose `now` has no time zone; lineage files that hold JSON of other
-- shapes than src/elt_pipeline/shared/lineage.py writes; lines of a Kafka log that are not JSON, and
-- the artifacts of its messages; the files that hold data checks or a configuration, which libraries
-- parse. Not code of the repository and therefore parameters: pydantic's reading and writing of
-- documents (`dump`, `validate`), the Unicode tables (`upper_of`, `is_alnum`, `lower`), the hash of a
-- logical path (`digest`), and Python's numbers, times and regular expressions in the data checks. The
-- other connectors and cloud storage only pass data to libraries, and what Spark does with a data
-- frame is the parameter `Spark` of the relationalizer. The index of a plan by logical path is left
-- out, since nothing reads it; the compiler of SQL models has no module here.
pub mod Config
pub mod Ingest
pub mod Lineage
pub mod Maintenance
pub mod Normalize
pub mod Prelude
pub mod Quality
pub mod Schedule
pub mod Sql
