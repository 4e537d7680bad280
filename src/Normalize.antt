-- ===== src/Normalize.antt =====
-- The normaliser, src/elt_pipeline/normalize: the names of tables and columns, the plan of a schema,
-- and the data frames of a plan.
pub mod Identifiers
mod Bounds
pub mod Distinct
pub mod Plan
pub mod Planner
pub mod Relational
mod Examples
