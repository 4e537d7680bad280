-- ===== src/Schedule.antt =====
-- The schedule runner: src/elt_pipeline/shared/scheduler.py, and `_run_schedule_plan` with its
-- sensors in src/elt_pipeline/_cli_main.py.
pub mod Model
pub mod Order
pub mod Plan
pub mod World
pub mod Sensor
pub mod Rows
pub mod Run
mod Examples
