-- ===== src/Pipeline.antt =====
-- internal/pipeline: how a job is run. The children have what the runner computes: the disk space
-- that it reserves, the selector's options, its retries and its failure codes.
pub mod Capacity
pub mod Options
pub mod Attempts
pub mod Running
pub mod Tasks
pub mod Runs
pub mod Process
pub mod Frames
pub mod Keeping
pub mod Endings
pub mod Settling
pub mod Equal
pub mod Clean
pub mod Queue
