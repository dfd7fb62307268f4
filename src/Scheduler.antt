-- ===== src/Scheduler.antt =====
-- src/common/JobScheduler.h: the two schedulers, which share the reading of the load of an OST.
pub mod Load
pub mod Static
pub mod Admission
pub mod Overbook
pub mod Dynamic
pub mod Limits
pub mod Interface
pub mod Session
pub mod Samples
mod Tests
