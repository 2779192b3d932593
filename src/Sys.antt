-- ===== src/Sys.antt =====
-- src/sys.rs: the page allocator over `mmap`. What `mmap` returns is an argument, and the calls of
-- `munmap` and `madvise` are results; a call names a region and need not succeed. Sums wrap at 2^64.
-- `& !(align - 1)` at a power of two is written by `/` and `*`.
pub mod Trim
use clmalloc.Base.{ℕ, ◌*◌, ◌/◌, Option, none, some, List, [], ◌∷◌, ◌++◌, ltb, ◌==◌, if◌then◌else◌}
use clmalloc.Base.Words64.{add64, sub64}
use clmalloc.SizeClass.{Layout}

-- A region of the address space.
pub record Region : Type 0 where
  pub start : ℕ
  pub len : ℕ

abbrev pub aligned_addr : ℕ → ℕ → ℕ
aligned_addr raw align = sub64 (add64 raw align) 1 / align * align

-- `if len > 0 { munmap(start, len) }`
abbrev pub unmap : ℕ → ℕ → List Region
unmap start len = if ltb 0 len then record { start = start; len = len } ∷ [] else []

-- The address, and the calls of `munmap` that trim the mapping; `none` is `MAP_FAILED`.
unfoldable pub mmap_alloc : Option ℕ → Layout → Option ℕ × List Region
mmap_alloc none layout = (none, [])
mmap_alloc (some raw) layout =
    let alloc_size = add64 layout.size layout.align in
    let addr = aligned_addr raw layout.align in
    let leading = sub64 addr raw in
    let trailing = sub64 (add64 raw alloc_size) (add64 addr layout.size) in
    let trims = unmap raw leading ++ unmap (add64 addr layout.size) trailing in
    (if addr == 0 then none else some addr, trims)

abbrev pub mmap_dealloc : ℕ → Layout → Region
mmap_dealloc ptr layout = record { start = ptr; len = layout.size }
