-- ===== src/Jobs/Scheduler.antt =====
-- collapsarr/jobs/scheduler.py: what puts jobs on the queue, and what steers those that wait.
pub mod Active
pub mod Guard
pub mod Store
pub mod Enqueue
pub mod DefaultAudio
pub mod TopUp
pub mod Steer
mod Tests
