-- ===== src/Model.antt =====
-- The model targets, strategies/model_prediction_targets.py with strategies/model_common.py,
-- strategies/model_target_planners and the daily target of lives/snapshot_recorder.py.
pub mod Plans
pub mod Calendar
pub mod Planner
pub mod Local
pub mod Store
pub mod Day
pub mod Candidates
pub mod Recorder
pub mod Exclusion
pub mod Holdings
pub mod Recency
pub mod Seeding
pub mod Samples
