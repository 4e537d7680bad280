-- ===== src/Maintenance.antt =====
-- The maintenance runner of src/elt_pipeline/maintenance/__init__.py.
pub mod Jobs
pub mod Tables
pub mod Runner
mod Reads
mod Calls
mod Examples
