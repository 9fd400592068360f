-- ===== src/Dradd.antt =====
-- lab/dradd.py: dependency-guided reduction of a failing workload.
pub mod Workload
pub mod Trials
pub mod Order
pub mod Build
pub mod Reduce
