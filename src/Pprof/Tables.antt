-- ===== src/Pprof/Tables.antt =====
-- The stack table and the side table of src/pprof.rs. A hash map is an association list with one
-- entry for a key; counters are 64-bit words, the signed ones as bit patterns. `unbiased_weight`,
-- which is floating-point arithmetic, is a parameter.
pub mod Live
use clmalloc.Base.{
  ℕ, zero, suc, ◌+◌, ◌*◌, ◌%◌, ◌^◌, Bool, true, false, ◌&&◌, Option, none, some, List, [], ◌∷◌,
  ◌++◌, ◌==◌, if◌then◌else◌, length,
}
use clmalloc.Base.Fun.{update}
use clmalloc.Base.Words64.{add64, sub64}

abbrev pub same_frames : List ℕ → List ℕ → Bool
same_frames [] [] = true
same_frames (x ∷ xs) (y ∷ ys) = (x == y) && same_frames xs ys
same_frames _ _ = false

pub record StackCounters : Type 0 where
  pub alloc_count : ℕ
  pub alloc_bytes : ℕ
  pub live_count : ℕ
  pub live_bytes : ℕ

abbrev pub zero_counters : StackCounters
zero_counters = record { alloc_count = 0; alloc_bytes = 0; live_count = 0; live_bytes = 0 }

-- `counters` is a vector: its length, and the entry at each index.
pub record StackTable : Type 0 where
  pub map : List (List ℕ × ℕ)
  pub size : ℕ
  pub counters : ℕ → StackCounters

unfoldable pub find_stack : List ℕ → List (List ℕ × ℕ) → Option ℕ
find_stack frames [] = none
find_stack frames ((key, id) ∷ rest) =
    if same_frames key frames then some id else find_stack frames rest

unfoldable pub intern : StackTable → List ℕ → ℕ × StackTable
intern t frames =
    let next_id = t.size % 2 ^ 32 in
    elim (find_stack frames t.map) [
      | some id ↦ (id, t)
      | none ↦ (
        next_id,
        record {
          map = (frames, next_id) ∷ t.map;
          size = t.size + 1;
          counters = update t.counters t.size zero_counters;
        },
      )
    ]

pub record SampleRecord : Type 0 where
  pub stack_id : ℕ
  pub size : ℕ
  pub class_idx : ℕ

abbrev pub SideTable : Type 0
SideTable = List (ℕ × SampleRecord)

unfoldable pub find_sample : ℕ → SideTable → Option SampleRecord
find_sample ptr [] = none
find_sample ptr ((key, r) ∷ rest) = if key == ptr then some r else find_sample ptr rest

unfoldable pub remove_sample : ℕ → SideTable → SideTable
remove_sample ptr [] = []
remove_sample ptr ((key, r) ∷ rest) = if key == ptr then rest else (key, r) ∷ remove_sample ptr rest

-- An entry for the same address is replaced.
unfoldable pub insert_sample : ℕ → SampleRecord → SideTable → SideTable
insert_sample ptr r side = (ptr, r) ∷ remove_sample ptr side

pub record PprofState : Type 0 where
  pub stacks : StackTable
  pub side : SideTable

abbrev pub new_state : PprofState
new_state = record {
  stacks = record { map = []; size = 0; counters = λ i. zero_counters };
  side = [];
}

-- `ReentrancyGuard`: the thread's flag `IN_PPROF`; a call made while it is set does nothing, and
-- the guard's drop clears the flag.
abbrev pub guarded : Bool → (PprofState → PprofState) → PprofState → PprofState
guarded in_pprof f s = if in_pprof then s else f s

module _ (unbiased_weight : ℕ → ℕ → ℕ) where
  abbrev pub weighted : ℕ → ℕ → ℕ
  weighted size interval = unbiased_weight size interval * size % 2 ^ 64

  abbrev pub count_sample : StackCounters → ℕ → ℕ → StackCounters
  count_sample c size interval =
      let weight = unbiased_weight size interval in
      record {
        alloc_count = add64 c.alloc_count weight;
        alloc_bytes = add64 c.alloc_bytes (weighted size interval);
        live_count = add64 c.live_count weight;
        live_bytes = add64 c.live_bytes (weighted size interval);
      }

  abbrev pub uncount_sample : StackCounters → ℕ → ℕ → StackCounters
  uncount_sample c size interval =
      let weight = unbiased_weight size interval in
      record c {
        live_count = sub64 c.live_count weight;
        live_bytes = sub64 c.live_bytes (weighted size interval);
      }

  -- The frames are what the backtrace library reports.
  unfoldable pub record_sample :
      Bool → (interval : ℕ) → List ℕ → (ptr size class_idx : ℕ) → PprofState → PprofState
  record_sample in_pprof interval frames ptr size class_idx = guarded in_pprof λ s.
      let (stack_id, t) = intern s.stacks frames in
      record {
        stacks = record t {
          counters = update t.counters stack_id (count_sample (t.counters stack_id) size interval);
        };
        side =
            insert_sample ptr (record { stack_id = stack_id; size = size; class_idx = class_idx })
              s.side;
      }

  unfoldable pub maybe_remove_sample : Bool → (interval ptr : ℕ) → PprofState → PprofState
  maybe_remove_sample in_pprof interval ptr = guarded in_pprof λ s. elim (find_sample ptr s.side) [
    | none ↦ s
    | some r ↦
        let t = s.stacks in
        record {
          stacks = record t {
            counters =
                update t.counters r.stack_id
                  (uncount_sample (t.counters r.stack_id) r.size interval);
          };
          side = remove_sample ptr s.side;
        }
  ]
