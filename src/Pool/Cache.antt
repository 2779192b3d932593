-- ===== src/Pool/Cache.antt =====
-- `cache_slab` and `uncache_slab` of src/pool.rs below the limit of the cache, one access to the shared
-- memory at a time, by any number of threads, under sequential consistency.
pub mod Race
use clmalloc.Base.{ℕ, ◌<◌, ◌≡◌, ◌≢◌, List, [], ◌∷◌}
use clmalloc.Base.Fun.{update}
use clmalloc.Slab.Links.{Words, null, count, read_next, write_next}
use clmalloc.Slab.Header.Ops.Remove.{remove}

-- Where a thread stands: outside; in `uncache_slab` with the head loaded, or with its link read as
-- well; in `cache_slab` with the head loaded, or with the link written.
pub data Pc : Type 0 where
  idle : Pc
  popping : (head : ℕ) → Pc
  peeked : (head next : ℕ) → Pc
  pushing : (base head : ℕ) → Pc
  linked : (base head : ℕ) → Pc

-- `outside` are the pages that heaps have in use.
pub record Cache : Type 0 where
  pub words : Words
  pub head : ℕ
  pub pc : ℕ → Pc
  pub outside : List ℕ

-- The steps of a thread in `uncache_slab`.
pub data PopStep (s : Cache) : Cache → Type 0 where
  load : (t : ℕ) → s.pc t ≡ idle → PopStep s (record s { pc = update s.pc t (popping s.head) })
  -- `NonNull::new(head)?`
  miss : (t : ℕ) → s.pc t ≡ popping null → PopStep s (record s { pc = update s.pc t idle })
  peek :
      (t head : ℕ)
      → s.pc t ≡ popping head
      → head ≢ null
      → PopStep s (record s { pc = update s.pc t (peeked head (read_next s.words head)) })
  -- The compare-and-swap finds the head that was loaded.
  exchange :
      (t head next : ℕ)
      → s.pc t ≡ peeked head next
      → s.head ≡ head
      → PopStep s (record s { head = next; pc = update s.pc t idle; outside = head ∷ s.outside })
  retry :
      (t head next : ℕ)
      → s.pc t ≡ peeked head next
      → PopStep s (record s { pc = update s.pc t (popping s.head) })

-- The steps of a thread in `cache_slab`, which takes over a page in use.
pub data PushStep (s : Cache) : Cache → Type 0 where
  load :
      (t base : ℕ)
      → s.pc t ≡ idle
      → 0 < count base s.outside
      → PushStep s
          (record s { pc = update s.pc t (pushing base s.head); outside = remove base s.outside })
  link :
      (t base head : ℕ)
      → s.pc t ≡ pushing base head
      → PushStep s
          (record s { words = write_next s.words base head; pc = update s.pc t (linked base head) })
  exchange :
      (t base head : ℕ)
      → s.pc t ≡ linked base head
      → s.head ≡ head
      → PushStep s (record s { head = base; pc = update s.pc t idle })
  retry :
      (t base head : ℕ)
      → s.pc t ≡ linked base head
      → PushStep s (record s { pc = update s.pc t (pushing base s.head) })

pub data Step (s : Cache) : Cache → Type 0 where
  by_pop : {t : Cache} → PopStep s t → Step s t
  by_push : {t : Cache} → PushStep s t → Step s t

-- A cache with the head `head` in the memory `words`, no page in use and no thread at work.
abbrev pub start : Words → ℕ → Cache
start words head = record { words = words; head = head; pc = λ t. idle; outside = [] }

pub data Reach (s : Cache) : Cache → Type 0 where
  here : Reach s s
  later : {t u : Cache} → Reach s t → Step t u → Reach s u
