-- ===== src/Examples/Threads.antt =====
-- Two threads push the slots 16 and 32 at the same time; one has to retry. The owner drains both.
-- Then the race of the page cache.
use clmalloc.Base.{suc, ◌≤◌, ◌≡◌, refl, [], ◌∷◌, arith}
use clmalloc.Base.Fun.{update}
use clmalloc.Slab.Links.{Words, null, count}
use clmalloc.Slab.Treiber.Interleave.{
  idle, loaded, linked, Remote, by_push, by_owner, load, link, exchange, retry, swap, take, start,
  Reach, here, later,
}
use clmalloc.Slab.Treiber.Interleave.Delivery.{Reach-delivered}
use clmalloc.Pool.Cache
use clmalloc.Pool.Cache.Race.{Reach-handed_out_twice}

abbrev words : Words
words a = 0

abbrev s1 : Remote
s1 = record (start words) { pc = update (λ t. idle) 0 (loaded 16 0) }

abbrev s2 : Remote
s2 = record s1 { pc = update s1.pc 1 (loaded 32 0) }

abbrev s3 : Remote
s3 = record s2 { words = update s2.words 16 0; pc = update s2.pc 0 (linked 16 0) }

abbrev s4 : Remote
s4 = record s3 { words = update s3.words 32 0; pc = update s3.pc 1 (linked 32 0) }

abbrev s5 : Remote
s5 = record s4 { head = 16; pc = update s4.pc 0 idle; pushed = 16 ∷ [] }

abbrev s6 : Remote
s6 = record s5 { pc = update s5.pc 1 (loaded 32 16) }

abbrev s7 : Remote
s7 = record s6 { words = update s6.words 32 16; pc = update s6.pc 1 (linked 32 16) }

abbrev s8 : Remote
s8 = record s7 { head = 32; pc = update s7.pc 1 idle; pushed = 32 ∷ 16 ∷ [] }

abbrev s9 : Remote
s9 = record s8 { head = 0; cursor = 32 }

abbrev s10 : Remote
s10 = record s9 { words = update s9.words 32 0; cursor = 16; free_list = 32; received = 32 ∷ [] }

abbrev s11 : Remote
s11 = record s10 {
  words = update s10.words 16 32;
  cursor = 0;
  free_list = 16;
  received = 16 ∷ 32 ∷ [];
}

loads : Reach words s2
loads =
    later
      (later here (
        by_push (
          load 0 16 refl
            (record { not_null = omega arith; returned = refl; not_pushing = λ u. omega arith }))))
      (by_push (
        load 1 32 refl
          (record { not_null = omega arith; returned = refl; not_pushing = λ u. ground arith })))

pushes : Reach words s8
pushes =
    later
      (later
        (later
          (later (later (later loads (by_push (link 0 16 0 refl))) (by_push (link 1 32 0 refl)))
            (by_push (exchange 0 16 0 refl refl)))
          (by_push (retry 1 32 0 refl)))
        (by_push (link 1 32 16 refl)))
      (by_push (exchange 1 32 16 refl refl))

drained : Reach words s11
drained =
    later (later (later pushes (by_owner (swap refl))) (by_owner (take (omega arith))))
      (by_owner (take (omega arith)))

Reach-delivered_example :
    (count 16 s11.received ≤ count 16 s11.pushed)
    × (count 16 s11.pushed ≤ suc (count 16 s11.received))
    × (s11.head ≡ null → s11.cursor ≡ null → count 16 s11.pushed ≡ count 16 s11.received)
Reach-delivered_example = Reach-delivered drained 16

-- A cache of the pages 16 and 32, in this order.
abbrev pages : Words
pages = update (λ a. 0) 16 32

Reach-handed_out_twice_example :
    (s : Cache.Cache) × Cache.Reach (Cache.start pages 16) s × (2 ≤ count 32 s.outside)
Reach-handed_out_twice_example =
    Reach-handed_out_twice pages 16 (omega arith) (omega arith) (omega arith)
