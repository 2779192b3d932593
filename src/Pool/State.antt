-- ===== src/Pool/State.antt =====
-- The state of src/pool.rs, and what its operations share. `Machine` is the memory that the heaps
-- and the pool share, with the calls made to the OS, the latest first.
use clmalloc.Base.{
  ℕ, Option-cases, inl, inr, refl, zero, suc, ◌+◌, ◌*◌, ◌%◌, ◌≡◌, ap, Bool, ◌&&◌, not, Option, none,
  some, List, ltb, leb, if◌then◌else◌,
}
use clmalloc.Base.Fun.{update}
use clmalloc.Base.Words64.{add64, sub64}
use clmalloc.Slab.Links.{Words, null}
use clmalloc.Slab.Queue.{Nodes}
use clmalloc.Metrics.{PoolMetrics, Counters, new_pool_metrics}
use clmalloc.Pool.PageList.{PageFreeList, empty}

abbrev pub segment_size : ℕ
segment_size = 2 * 1024 * 1024

abbrev pub max_segments : ℕ
max_segments = 4096

abbrev pub slabs_per_segment : ℕ
slabs_per_segment = 32

abbrev pub purge_high_water : ℕ
purge_high_water = 64

abbrev pub purge_low_water : ℕ
purge_low_water = 32

abbrev pub slab_cache_max : ℕ
slab_cache_max = 512

-- `seg_outstanding` holds a u8 for each segment. The three last fields are the `metrics` feature's.
pub record PoolState : Type 0 where
  pub dirty_list : PageFreeList
  pub clean_list : PageFreeList
  pub segment_cursor : ℕ
  pub segment_end : ℕ
  pub carving_idx : ℕ
  pub segments : ℕ → ℕ
  pub segment_count : ℕ
  pub seg_outstanding : ℕ → ℕ
  pub outstanding_slabs : ℕ
  pub large_mapped_bytes : ℕ
  pub metrics : PoolMetrics

pub record PagePool : Type 0 where
  pub state : PoolState
  pub abandoned : ℕ → ℕ
  pub slab_cache : ℕ
  pub slab_cache_len : ℕ

abbrev pub new_state : PoolState
new_state = record {
  dirty_list = empty;
  clean_list = empty;
  segment_cursor = null;
  segment_end = null;
  carving_idx = 0;
  segments = λ i. null;
  segment_count = 0;
  seg_outstanding = λ i. 0;
  outstanding_slabs = 0;
  large_mapped_bytes = 0;
  metrics = new_pool_metrics;
}

abbrev pub new_pool : PagePool
new_pool = record {
  state = new_state;
  abandoned = λ c. null;
  slab_cache = null;
  slab_cache_len = 0;
}

-- What the pool asks of its `PageAllocator` and gets no answer to.
pub data OsCall : Type 0 where
  os_dealloc : (ptr size : ℕ) → OsCall
  os_purge : (ptr len : ℕ) → OsCall

pub record Machine : Type 0 where
  pub pool : PagePool
  pub words : Words
  pub nodes : Nodes
  pub counters : Counters
  pub log : List OsCall

-- A call that may panic: `none` is a reached `unreachable!` or a failed assertion.
abbrev pub Cmd : Type 0 → Type 0
Cmd A = Machine → Option (A × Machine)

abbrev pub pure : {A : Type 0} → A → Cmd A
pure a m = some (a, m)

infixl 5 ◌>>=◌ ◌>>◌
abbrev pub ◌>>=◌ : {A B : Type 0} → Cmd A → (A → Cmd B) → Cmd B
◌>>=◌ c f m = elim (c m) [ none ↦ none | some (a, m') ↦ f a m' ]

abbrev pub ◌>>◌ : {B : Type 0} → Cmd (Unit {0}) → Cmd B → Cmd B
c >> k = c >>= λ _. k

-- A command runs what follows it, on its result and the state that it leaves.
pub bind-some :
    {A B : Type 0} (c : Cmd A) (f : A → Cmd B) (m : Machine) {a : A} {m' : Machine}
    → c m ≡ some (a, m')
    → (c >>= f) m ≡ f a m'
bind-some {A} {B} c f m {a} {m'} e =
    ap (λ (r : Option (A × Machine)). elim r [ none ↦ none | some (a, m') ↦ f a m' ]) e

-- Running two commands in a row and then a third is running the first and then the rest.
pub bind_assoc :
    {A B C : Type 0} (c : Cmd A) (f : A → Cmd B) (k : B → Cmd C) (m : Machine)
    → ((c >>= f) >>= k) m ≡ (c >>= (λ a. f a >>= k)) m
bind_assoc c f k m = elim (Option-cases (c m)) [
  | inl e ↦ rw (e, ◌>>=◌) refl
  | inr ((a, m1), e) ↦ rw (e, ◌>>=◌) refl
]

abbrev pub set_state : Machine → PoolState → Machine
set_state m s = record m { pool = record (m.pool) { state = s } }

-- `self.state.lock()` with the `metrics` feature counts the acquisition.
abbrev pub lock : PoolState → PoolState
lock s = record s {
  metrics = record (s.metrics) { pool_lock_count = add64 (s.metrics.pool_lock_count) 1 };
}

-- The segment that an address lies in.
abbrev pub inside : ℕ → ℕ → Bool
inside base addr = leb base addr && ltb addr (base + segment_size)

-- The loop of `find_segment`: the rounds left, then the index; `none` is its `unreachable!`.
unfoldable pub find_from : PoolState → ℕ → ℕ → ℕ → Option ℕ
find_from s addr zero i = none
find_from s addr (suc n) i =
    let rest = find_from s addr n (i + 1) in if inside (s.segments i) addr then some i else rest

unfoldable pub find_segment : PoolState → ℕ → Option ℕ
find_segment s addr = find_from s addr s.segment_count 0

unfoldable pub segment_fully_carved : PoolState → ℕ → Bool
segment_fully_carved s seg_idx = not (inside (s.segments seg_idx) s.segment_cursor)

-- `state.seg_outstanding[seg] += 1` and `-= 1`
abbrev pub more_outstanding : PoolState → ℕ → PoolState
more_outstanding s seg = record s {
  seg_outstanding = update s.seg_outstanding seg ((s.seg_outstanding seg + 1) % 256);
}

abbrev pub less_outstanding : PoolState → ℕ → PoolState
less_outstanding s seg = record s {
  seg_outstanding = update s.seg_outstanding seg ((s.seg_outstanding seg + 255) % 256);
}

abbrev pub one_slab_out : PoolState → PoolState
one_slab_out s = record s { outstanding_slabs = add64 s.outstanding_slabs 1 }

abbrev pub one_slab_back : PoolState → PoolState
one_slab_back s = record s { outstanding_slabs = sub64 s.outstanding_slabs 1 }
