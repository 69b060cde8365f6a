-- ===== src/Arr.antt =====
-- collapsarr/arr: the configured instances and the translation of their paths.
pub mod Paths
pub mod Prefixes
mod Tests
