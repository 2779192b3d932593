-- ===== src/Pool/Cache/Race.antt =====
-- A compare-and-swap that finds the head it loaded does not know that the cache is unchanged.
use clmalloc.Base.{ℕ, ◌≤◌, ◌≢◌, refl, arith}
use clmalloc.Slab.Links.{Words, null, count}
use clmalloc.Pool.Cache.{Cache, PopStep, PushStep, by_pop, by_push, start, Reach, here, later}

module _ (words : Words) (a : ℕ) (some_page : a ≢ null) (some_next : words a ≢ null) where
  -- Thread 0 has loaded the head and read its link.
  stopped : (s : Cache) × Reach (start words a) s
  stopped = (
    _,
    later (later here (by_pop (PopStep.load 0 refl))) (by_pop (PopStep.peek 0 a refl some_page)),
  )

  -- Meanwhile thread 1 takes the two first pages.
  emptied : (s : Cache) × Reach (start words a) s
  unfolding stopped
  emptied = (
    _,
    later
        (later
          (later
            (later
              (later (later stopped.1 (by_pop (PopStep.load 1 refl)))
                (by_pop (PopStep.peek 1 a refl some_page)))
              (by_pop (PopStep.exchange 1 a (words a) refl refl)))
            (by_pop (PopStep.load 1 refl)))
          (by_pop (PopStep.peek 1 (words a) refl some_next)))
        (by_pop (PopStep.exchange 1 (words a) (words (words a)) refl refl)),
  )

  -- It gives the first one back.
  returned : (s : Cache) × Reach (start words a) s
  unfolding emptied stopped
  returned = (
    _,
    later
        (later (later emptied.1 (by_push (PushStep.load 1 a refl (ground arith))))
          (by_push (PushStep.link 1 a (words (words a)) refl)))
        (by_push (PushStep.exchange 1 a (words (words a)) refl refl)),
  )

-- From a cache whose head leads to a second, different page, two threads can reach a state in which
-- that second page is in use twice.
pub Reach-handed_out_twice :
    (words : Words) (a : ℕ)
    → a ≢ null
    → words a ≢ null
    → words a ≢ a
    → (s : Cache) × Reach (start words a) s × (2 ≤ count (words a) s.outside)
unfolding returned emptied stopped
Reach-handed_out_twice words a some_page some_next apart = (
  _,
  later
      (later
        (later
          (later (returned words a some_page some_next).1
            (by_pop (PopStep.exchange 0 a (words a) refl refl)))
          (by_pop (PopStep.load 0 refl)))
        (by_pop (PopStep.peek 0 (words a) refl some_next)))
      (by_pop (PopStep.exchange 0 (words a) _ refl refl)),
  ground arith,
)
