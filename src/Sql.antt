-- ===== src/Sql.antt =====
-- The SQL stage: src/elt_pipeline/sql.
pub mod Contract
pub mod Merge
pub mod Graph
