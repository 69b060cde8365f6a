-- ===== src/Library.antt =====
-- collapsarr/library: the mirrored catalog, as far as the Tracked value of a file needs it.
pub mod Nodes
pub mod Tracked
mod Tests
