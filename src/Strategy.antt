-- ===== src/Strategy.antt =====
-- strategies/target_quantities.py: the convergence engine `TargetQuantityStrategy`.
pub mod Types
pub mod Samples
pub mod Monad
pub mod Orders
pub mod Submit
pub mod Cash
pub mod Windows
pub mod Events
pub mod Targets
pub mod Unfilled
pub mod Converge
