-- ===== src/Slab.antt =====
-- src/slab.rs: a slab is a 64 KiB page that serves the slots of one size class.
pub mod Links
pub mod FreeList
pub mod Treiber
pub mod Header
pub mod Queue
