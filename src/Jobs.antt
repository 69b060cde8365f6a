-- ===== src/Jobs.antt =====
-- collapsarr/jobs: the job queue and its worker pool.
pub mod Job
pub mod Queue
pub mod Pool
pub mod Line
pub mod Run
pub mod Rehydrate
pub mod Threads
pub mod History
pub mod Scheduler
mod Tests
