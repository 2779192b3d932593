-- ===== src/Lib.antt =====
-- clmalloc: a thread-caching slab allocator. A global page pool (src/pool.rs) gets segments of 2 MiB
-- from the OS (src/sys.rs) and hands out pages of 64 KiB. Each thread has a heap (src/heap.rs) that
-- turns a page into a slab of slots of one size class (src/slab.rs, src/size_class.rs), keeps an active
-- slab for each class and lists of full and partial ones, and frees slots of other heaps' slabs onto
-- the remote stack of the slab. The GlobalAlloc implementation (src/global.rs) finds the heap of the
-- thread. Counters (src/metrics.rs) and a sampling profiler (src/pprof.rs) observe all this.
--
-- Parts, files and correspondence:
--   SizeClass    src/size_class.rs: class_index_from_size, CLASS_TABLE, class_index, class_size.
--                Locate, Fit, Lookup and Align have the proofs.
--   Slab         src/slab.rs. Links: read_next and write_next over a memory of link words. FreeList:
--                SlotFreeList. Treiber: TreiberStack, as whole operations and, in Interleave, one
--                access at a time. Header: SlabHeader, Slab and SlabRef, with the invariant IsSlab in
--                Header/Region and an abstract store of slots in Header/Spec.
--                Queue: the slab_list functions.
--   Pool         src/pool.rs. PageList: PageFreeList. State: PoolState, PagePool, the machine that heaps
--                and pool share, and commands on it. Provide: alloc_slab. Return: dealloc_slab,
--                purge_excess and the release of segments. Shared: abandoned slabs, the page cache,
--                large allocations, snapshots, the drop. Segments: the segment table. Recycle: the free
--                pages in stock. Cache: the page cache one access at a time.
--   Heap         src/heap.rs. State: the heap and the slab operations on the machine. Alloc: Heap::alloc
--                and what it calls. Free: Heap::dealloc and the drop. Routes: where slots end up.
--                Bin: the slabs of a class, their invariant IsBin with a ledger of each slab's slots and
--                with what stands beside them (Rest), and proofs for the parts of alloc (Active, Serve,
--                Scan, Refill, Adopt, Request), for dealloc (Free) and for the drop (Exit). Class adds
--                the slabs of the class that are up for adoption.
--   World        src/heap.rs and src/pool.rs together: the heaps of all threads, their slabs of every
--                class and the abandoned ones, with the invariant IsWorld. Step: a run on one class of
--                one heap, seen by all others. Alloc, Page, Free, Waiting, Drop: the calls. Start: a
--                new heap. Runs that find the pool's cache full, and so give a page back to its segment
--                under the lock, are modelled but not covered there.
--   Global       src/global.rs: the states of the thread-local pointer, alloc, dealloc, the destructor.
--   Metrics      src/metrics.rs: counters, registry, snapshots (Snapshot, Registry, Sums, Totals,
--                Deregister).
--   Pprof        src/pprof.rs. Sampler: configuration and sampler. Tables: stacks and live samples.
--                Wire: the protobuf encoder. Profile: build_profile.
--   Sys          src/sys.rs: MmapAllocator.
--   Base         shared names, Boolean tests, memory as functions, 64-bit words.
--   Examples     runs at concrete inputs.
--
-- State is passed explicitly. An address is a number, null is 0. Link words of free slots and pages
-- are one memory, slab headers another: a header is written anew before a page is used as a slab, and
-- a slot never overlaps its header. Fields of 16 and 64 bits wrap, and so do the addresses of
-- MmapAllocator; `munmap` is known by what it does to whole pages. A command gives none where the
-- source panics (an unreachable segment lookup, a full registry), and where fuel runs out: the fuel
-- of the heap's loops bounds the lengths of its slab lists and the depth of the recursion of alloc;
-- two more than the length of the full list is enough for alloc, and one more than that of the list or
-- chain for the loops of try_adopt and of the drop.
-- Other loops carry enough fuel of their own: 64 rounds for leading zeros, 10 groups for a varint,
-- slot_count rounds for a drain, the list's length for remove_if.
--
-- Each operation runs with no other thread in between, so a compare-and-swap succeeds at once, and
-- locks are not modelled. The exceptions are Slab/Treiber/Interleave, which has pushes and the
-- drain of the remote stack as steps of any number of threads and one owner, and Pool/Cache, which
-- has the page cache as steps of any number of threads. Both are under sequential consistency. The
-- metrics feature is on, and heaps are without the profiler's hooks. What mmap and malloc return,
-- the random source, the weights in floating point, the frames and names that the backtrace library
-- reports, and the time are arguments. Not modelled: the pthread key, the compression and output of
-- a profile, src/sync.rs, the allocator for tests, benchmarks and tests.
mod Base
pub mod SizeClass
pub mod Slab
pub mod Metrics
pub mod Pool
pub mod Heap
pub mod World
pub mod Global
pub mod Pprof
pub mod Sys
mod Examples
