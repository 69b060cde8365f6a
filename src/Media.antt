-- ===== src/Media.antt =====
-- collapsarr/media: the tracked files and the state of their downmix targets.
pub mod Rows
pub mod Statuses
pub mod Upsert
pub mod Agree
pub mod Once
mod Tests
