-- ===== src/Pool.antt =====
-- src/pool.rs: the page pool, which gets 2 MiB segments from the OS and hands out 64 KiB pages.
pub mod Segments
pub mod Recycle
pub mod PageList
pub mod State
pub mod Provide
pub mod Return
pub mod Shared
pub mod Cache
