-- ===== src/Controller.antt =====
-- internal/controller: the reconcilers of the custom resources.
pub mod Status
pub mod Resume
pub mod Final
pub mod Frozen
pub mod Failover
pub mod BackupRun
pub mod Replicate
pub mod Dumps
pub mod RestoreRun
pub mod Dispatch
mod Tests
