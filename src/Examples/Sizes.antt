-- ===== src/Examples/Sizes.antt =====
-- Sizes and layouts at concrete numbers, and one aligned mapping.
use clmalloc.Base.{ℕ, ◌+◌, ◌*◌, ◌/◌, ◌≤◌, ◌<◌, ◌≡◌, ◌⊎◌, refl, some, none, arith}
use clmalloc.SizeClass.{
  Layout, IsLayout, class_index_from_size, class_index, class_size, class_table, effective_size,
  next_multiple_of, fill, table_entry, div_ceil, leading_zeros,
}
use clmalloc.SizeClass.Fit.{Best, class_index_from_size-Best, class_index_from_size_waste}
use clmalloc.SizeClass.Lookup.{class_index-Best, class_index-class_size}
use clmalloc.SizeClass.Align.{Multiple, class_index-align}
use clmalloc.Sys.{Region, mmap_alloc}
use clmalloc.Sys.Trim.{Covers, IsMunmap, mmap_alloc_lem}

class_index_from_size-Best_example : Best 100 (class_index_from_size 100)
class_index_from_size-Best_example = class_index_from_size-Best 100 (omega arith) (omega arith)

class_index_from_size_waste_example : 4 * class_size (class_index_from_size 100) ≤ 500
class_index_from_size_waste_example = class_index_from_size_waste 100 (omega arith) (omega arith)

abbrev line : Layout
line = record { size = 100; align = 64 }

line-IsLayout : IsLayout line
line-IsLayout = record { exponent = 6; align_pow = refl; fits = omega arith }

class_index-Best_example :
    ((32768 < effective_size line) × (class_index line ≡ none))
    ⊎ ((i : ℕ) × (class_index line ≡ some i)
        × (effective_size line ≤ 32768)
        × Best (effective_size line) i)
class_index-Best_example = class_index-Best line

class_index-class_size_example : class_index (record { size = class_size 15; align = 1 }) ≡ some 15
class_index-class_size_example = class_index-class_size 15 (omega arith)

line_class : class_index line ≡ some 16
unfolding class_index next_multiple_of class_table fill table_entry class_index_from_size div_ceil
    leading_zeros
line_class = refl

class_index-align_example : (100 ≤ class_size 16) × Multiple 64 (class_size 16)
class_index-align_example = class_index-align line 16 line-IsLayout (omega arith) line_class

-- Linux with pages of 4096 bytes: an unaligned start is refused, and a length is rounded up.
abbrev MunmapLinux : Region → ℕ → Type 0
MunmapLinux r a =
    Multiple 4096 r.start × (r.start ≤ a) × (a < r.start + (r.len + 4095) / 4096 * 4096)

MunmapLinux-IsMunmap : IsMunmap 4096 MunmapLinux
MunmapLinux-IsMunmap = record {
  all = λ r at whole some_byte a low high. (at, low, omega (arith, whole));
  only = λ r at whole some_byte a c. (c.1, omega (arith, whole.1, c.2));
}

abbrev slab_layout : Layout
slab_layout = record { size = 65536; align = 65536 }

mmap_alloc_lem_example :
    (addr : ℕ) × ((mmap_alloc (some 69632) slab_layout).0 ≡ some addr)
    × Multiple 65536 addr
    × (69632 ≤ addr)
    × (addr + 65536 ≤ 69632 + (65536 + 65536))
    × ((a : ℕ)
        → 69632 ≤ a
        → a < 69632 + (65536 + 65536)
        → ((addr ≤ a) × (a < addr + 65536))
          ⊎ Covers MunmapLinux (mmap_alloc (some 69632) slab_layout).1 a)
    × ((a : ℕ)
        → Covers MunmapLinux (mmap_alloc (some 69632) slab_layout).1 a
        → (69632 ≤ a) × (a < 69632 + (65536 + 65536)) × ((a < addr) ⊎ (addr + 65536 ≤ a)))
mmap_alloc_lem_example =
    mmap_alloc_lem 4096 MunmapLinux-IsMunmap 69632 slab_layout (omega arith) (omega arith)
      (17, refl) (16, refl) (16, refl) (omega arith)
