-- ===== src/Tree/InPlace.antt =====
-- tree.c: insertion and deletion in place.
pub mod Insert
pub mod Fix
pub mod FixSame
pub mod Delete
pub mod DeleteSame
mod Tests
