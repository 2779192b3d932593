-- ===== src/Examples/Sampling.antt =====
-- One sample recorded and removed, with a weight of three.
use clmalloc.Base.{ℕ, ◌≡◌, refl, false, List, [], ◌∷◌, arith}
use clmalloc.Pprof.Tables.{
  StackCounters, StackTable, PprofState, find_stack, find_sample, record_sample,
  maybe_remove_sample,
}
use clmalloc.Pprof.Tables.Live.{IsTable, live_of, maybe_remove_sample-record_sample}

abbrev three : ℕ → ℕ → ℕ
three size interval = 3

abbrev counters : StackCounters
counters = record { alloc_count = 6; alloc_bytes = 48; live_count = 5; live_bytes = 40 }

-- The stack 11, 12 is known, with five live objects.
abbrev table : StackTable
table = record { map = (11 ∷ 12 ∷ [], 0) ∷ []; size = 1; counters = λ id. counters }

abbrev state : PprofState
state = record { stacks = table; side = [] }

table-IsTable : IsTable table
unfolding find_stack
table-IsTable = record {
  size_small = omega arith;
  known = λ frames id e. ground arith;
  words = λ id. record { count_small = omega arith; bytes_small = omega arith };
}

maybe_remove_sample-record_sample_example :
    ((maybe_remove_sample three false 512 4096
        (record_sample three false 512 (11 ∷ 12 ∷ []) 4096 64 12 state)).side
      ≡ [])
    × ((other : List ℕ)
        → live_of
            (maybe_remove_sample three false 512 4096
              (record_sample three false 512 (11 ∷ 12 ∷ []) 4096 64 12 state)).stacks
            other
          ≡ live_of table other)
unfolding find_sample
maybe_remove_sample-record_sample_example =
    maybe_remove_sample-record_sample three (λ size interval. omega arith) 512 (11 ∷ 12 ∷ []) 4096
      64 12 state refl table-IsTable
