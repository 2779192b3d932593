-- ===== src/SizeClass.antt =====
-- src/size_class.rs: the 49 size classes, the table that maps a size to its class, and the lookup.
pub mod Locate
pub mod Fit
pub mod Lookup
pub mod Align
use Prim.Native.Nat.{max}
use clmalloc.Base.{
  ℕ, zero, suc, ◌+◌, ◌-◌, ◌*◌, ◌/◌, ◌%◌, ◌^◌, ◌≤◌, ◌≡◌, Bool, ◌&&◌, Option, none, some, List, [],
  ◌∷◌, ltb, leb, ◌==◌, if◌then◌else◌, get_or,
}

abbrev pub min_size : ℕ
min_size = 8

abbrev pub sub_steps : ℕ
sub_steps = 4

abbrev pub min_k : ℕ
min_k = 3

abbrev pub max_k : ℕ
max_k = 14

abbrev pub num_groups : ℕ
num_groups = max_k - min_k + 1

abbrev pub num_regular : ℕ
num_regular = num_groups * sub_steps

abbrev pub max_slab_size : ℕ
max_slab_size = 32768

abbrev pub num_classes : ℕ
num_classes = num_regular + 1

-- `Layout`: an alignment that is a power of two, and a size that fits when rounded up to it.
pub record Layout : Type 0 where
  pub size : ℕ
  pub align : ℕ

pub record IsLayout (l : Layout) : Type 0 where
  pub exponent : ℕ
  pub align_pow : l.align ≡ 2 ^ exponent
  pub fits : l.size + l.align ≤ 2 ^ 63

-- `usize::leading_zeros` through the number of significant bits; 64 rounds are enough for a usize.
unfoldable pub significant : ℕ → ℕ → ℕ
significant zero n = 0
significant (suc f) n = if n == 0 then 0 else suc (significant f (n / 2))

unfoldable pub leading_zeros : ℕ → ℕ
unfolding significant
leading_zeros n = 64 - significant 64 n

unfoldable pub div_ceil : ℕ → ℕ → ℕ
div_ceil a b = if ltb 0 (a % b) then a / b + 1 else a / b

unfoldable pub next_multiple_of : ℕ → ℕ → ℕ
next_multiple_of a b = if a % b == 0 then a else a + (b - a % b)

-- What the `assert!` of `class_index_from_size` asks of its argument.
abbrev pub in_range : ℕ → Bool
in_range size = leb min_size size && leb size max_slab_size

unfoldable pub class_index_from_size : ℕ → ℕ
class_index_from_size size =
    if leb max_slab_size size
    then num_regular
    else let k = 64 - 1 - leading_zeros size in
      let base = 2 ^ k in
      let step = base / 4 in
      let j = div_ceil (size - base) step in
      if leb sub_steps j
      then (if ltb max_k (k + 1) then num_regular else (k + 1 - min_k) * sub_steps)
      else (k - min_k) * sub_steps + j

-- One entry of `CLASS_TABLE`, and the loop that fills it: the rounds left, then the index.
unfoldable pub table_entry : ℕ → ℕ
table_entry i =
    let size = (i + 1) * 2 in class_index_from_size (if ltb size min_size then min_size else size)

unfoldable pub fill : ℕ → ℕ → List ℕ
fill zero i = []
fill (suc n) i = table_entry i ∷ fill n (i + 1)

unfoldable pub class_table : List ℕ
class_table = fill (max_slab_size / 2) 0

abbrev pub effective_size : Layout → ℕ
effective_size l = max (next_multiple_of l.size l.align) min_size

unfoldable pub class_index : Layout → Option ℕ
class_index l =
    let size = effective_size l in
    if ltb max_slab_size size then none else some (get_or class_table ((size - 1) / 2) 0)

unfoldable pub class_size : ℕ → ℕ
class_size index =
    if leb num_regular index
    then max_slab_size
    else let k = index / sub_steps + min_k in
      let base = 2 ^ k in let step = base / 4 in base + index % sub_steps * step
