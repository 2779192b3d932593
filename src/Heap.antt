-- ===== src/Heap.antt =====
-- src/heap.rs: the heap of a thread, with the `metrics` feature and without `pprof`.
pub mod Routes
pub mod State
pub mod Alloc
pub mod Free
pub mod Bin
