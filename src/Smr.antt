-- ===== src/Smr.antt =====
-- libs/bi/bi_smr.c and include/bi_smr.h: the rings of freed objects and of modified ranges, the
-- writer's local caches before them, quiescence, reclamation and flushing.
pub mod Rounds
pub mod Ring
pub mod LocalCache
pub mod Quiesce
pub mod Reclaim
pub mod Flush
pub mod Timeline
mod Tests
