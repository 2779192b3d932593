-- ===== src/Pprof/Tables/Live.antt =====
-- A sample that is recorded and removed again, with the interval unchanged in between.
use clmalloc.Base.{
  ℕ, ◌^◌, ◌%◌, ◌<◌, ◌≡◌, ◌∙◌, refl, true, false, Option, none, some, List, [], ◌∷◌, arith, ◌==◌,
  inl, inr, Option-cases, Bool-cases,
}
use clmalloc.Base.Fun.{update}
use clmalloc.Base.Words64.{add64, sub64}
use clmalloc.Pprof.Tables.{
  StackCounters, StackTable, SideTable, PprofState, find_stack, intern, find_sample, remove_sample,
  insert_sample, same_frames, weighted, count_sample, uncount_sample, record_sample,
  maybe_remove_sample,
}

-- Counters are 64-bit words.
pub record IsCounters (c : StackCounters) : Type 0 where
  pub count_small : c.live_count < 2 ^ 64
  pub bytes_small : c.live_bytes < 2 ^ 64

intern-IsCounters :
    (t : StackTable) (frames : List ℕ)
    → ((id : ℕ) → IsCounters (t.counters id))
    → (id : ℕ) → IsCounters ((intern t frames).1.counters id)
unfolding intern
intern-IsCounters t frames h id = elim (Option-cases (find_stack frames t.map)) [
  | inl e ↦
      rw (e, intern)
        (record {
          count_small = ground (arith, (h id).count_small);
          bytes_small = ground (arith, (h id).bytes_small);
        })
  | inr (known, e) ↦ rw (e, intern) (h id)
]

remove-absent :
    (ptr : ℕ) (side : SideTable) → find_sample ptr side ≡ none → remove_sample ptr side ≡ side
unfolding find_sample remove_sample
remove-absent ptr [] h = refl
remove-absent ptr ((key, r) ∷ rest) h = ground (arith, remove-absent ptr rest)

there_and_back : (a w : ℕ) → a < 2 ^ 64 → w < 2 ^ 64 → sub64 (add64 a w) w ≡ a
there_and_back a w ha hw = omega arith

abbrev pub live_at : (ℕ → StackCounters) → Option ℕ → ℕ × ℕ
live_at counters none = (0, 0)
live_at counters (some id) = ((counters id).live_count, (counters id).live_bytes)

-- The live counters of the stack `frames`; a stack that the table does not know has nothing live.
abbrev pub live_of : StackTable → List ℕ → ℕ × ℕ
live_of t frames = live_at t.counters (find_stack frames t.map)

-- The index of each stack is below the length of the vector, which fits 32 bits.
pub record IsTable (t : StackTable) : Type 0 where
  pub size_small : t.size < 2 ^ 32
  pub known : (frames : List ℕ) (id : ℕ) → find_stack frames t.map ≡ some id → id < t.size
  pub words : (id : ℕ) → IsCounters (t.counters id)

same_frames-equal : (xs ys : List ℕ) → same_frames xs ys ≡ true → xs ≡ ys
same_frames-equal [] [] e = refl
same_frames-equal [] (y ∷ ys) e = ground arith
same_frames-equal (x ∷ xs) [] e = ground arith
same_frames-equal (x ∷ xs) (y ∷ ys) e =
    let head : x ≡ y = ground arith in
    let tail : xs ≡ ys = same_frames-equal xs ys (ground arith) in rw (head, tail) refl

live_at-same :
    (c d : ℕ → StackCounters) (found : Option ℕ)
    → ((id : ℕ) → ((c id).live_count ≡ (d id).live_count) × ((c id).live_bytes ≡ (d id).live_bytes))
    → live_at c found ≡ live_at d found
live_at-same c d none same = refl
live_at-same c d (some id) same = let (count, bytes) = same id in rw (count, bytes) refl

-- Interning a stack changes the live counters of no stack.
intern-live_of :
    (t : StackTable) (frames other : List ℕ)
    → IsTable t
    → live_of (intern t frames).1 other ≡ live_of t other
unfolding intern find_stack
intern-live_of t frames other k = elim (Option-cases (find_stack frames t.map)) [
  | inr (id, e) ↦ rw (e, intern) refl
  | inl e ↦ elim (Bool-cases (same_frames frames other)) [
    | inl same ↦
        let gone : find_stack other t.map ≡ none = rw (same_frames-equal frames other same) at e in
        let here : t.size % 2 ^ 32 ≡ t.size = omega (arith, k.size_small) in
        let there : (t.size == t.size) ≡ true = ground arith in
        rw (e, intern, same, gone, here, there) refl
    | inr far ↦ elim (Option-cases (find_stack other t.map)) [
      | inl gone ↦ rw (e, intern, far, gone) refl
      | inr (id, is) ↦
          let below = k.known other id is in
          let apart : (id == t.size) ≡ false = ground arith in rw (e, intern, far, is, apart) refl
    ]
  ]
]

-- Weights are 64-bit words.
module _ (unbiased_weight : ℕ → ℕ → ℕ)
    (weight_small : (size interval : ℕ) → unbiased_weight size interval < 2 ^ 64) where
  -- Recording a sample for an address that has none, and removing it at the same interval, leaves
  -- the side table as it was, and the live counters of every stack, known before or not.
  pub maybe_remove_sample-record_sample :
      (interval : ℕ) (frames : List ℕ) (ptr size class_idx : ℕ) (s : PprofState)
      → find_sample ptr s.side ≡ none
      → IsTable s.stacks
      → ((maybe_remove_sample unbiased_weight false interval ptr
            (record_sample unbiased_weight false interval frames ptr size class_idx s)).side
          ≡ s.side)
        × ((other : List ℕ)
            → live_of
                (maybe_remove_sample unbiased_weight false interval ptr
                  (record_sample unbiased_weight false interval frames ptr size class_idx s)).stacks
                other
              ≡ live_of s.stacks other)
  unfolding record_sample maybe_remove_sample insert_sample find_sample remove_sample
  maybe_remove_sample-record_sample interval frames ptr size class_idx s absent k =
      let found : (ptr == ptr) ≡ true = ground arith in
      let inner = intern-IsCounters s.stacks frames k.words in
      let (id, t) = intern s.stacks frames in
      let there =
        update t.counters id (count_sample unbiased_weight (t.counters id) size interval) in
      let back = update there id (uncount_sample unbiased_weight (there id) size interval) in
      rw (found, maybe_remove_sample, found)
        (
          remove-absent ptr s.side absent,
          λ other.
              live_at-same back (intern s.stacks frames).1.counters
                (find_stack other (intern s.stacks frames).1.map)
                (λ id. (
                  ground (
                    arith,
                    there_and_back _ _ (inner id).count_small (weight_small size interval),
                  ),
                  ground (
                    arith,
                    there_and_back _ _ (inner id).bytes_small (weight_bytes size interval),
                  ),
                ))
              ∙ intern-live_of s.stacks frames other k,
        )
    where
      weight_bytes : (size interval : ℕ) → weighted unbiased_weight size interval < 2 ^ 64
      weight_bytes size interval = omega arith
