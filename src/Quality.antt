-- ===== src/Quality.antt =====
-- The built-in data checks of src/elt_pipeline/shared/quality.py. Messages are left out.
pub mod Host
pub mod Values
pub mod Checks
pub mod Rows
pub mod Unique
pub mod Evaluate
mod Passes
mod Ages
mod References
mod Distinct
mod Duplicates
mod Correct
mod Examples
