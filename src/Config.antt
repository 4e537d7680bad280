-- ===== src/Config.antt =====
-- The layered configuration of src/elt_pipeline/config/loader.py and config/models.py.
pub mod Tree
mod Leaves
pub mod Resolve
mod Resolved
mod Examples
