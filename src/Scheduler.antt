-- ===== src/Scheduler.antt =====
-- `Scheduler` (include/scheduler/Scheduler.hpp, src/scheduler/Scheduler.cpp), in the modules below.
pub mod State
pub mod Stats
pub mod Admission
pub mod Cancellation
pub mod Execution
pub mod Places
pub mod Accounting
pub mod Dispatch
