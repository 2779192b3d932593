-- ===== src/Heap/Bin/Adopt/Place.antt =====
-- `place_adopted`, the end of the loop of `try_adopt` in src/heap.rs: where an adopted slab goes.
use clmalloc.Base.{
  ℕ, true, false, ◌<◌, ◌≡◌, ◌∙◌, ◌≢◌, ◌⊎◌, ap, refl, inl, inr, Option, none, some, List, [], ◌∷◌,
  arith, ◌==◌, ltb, leb, if◌then◌else◌, Bool-cases,
}
use clmalloc.Base.Words64.{add64}
use clmalloc.Slab.Links.{Words, null, count, write_next}
use clmalloc.Slab.Header.{SlabHeader, is_fully_free, free_count}
use clmalloc.Slab.Header.Lifecycle.{is_fully_free_lem}
use clmalloc.Slab.Queue.{slab_list_push}
use clmalloc.Slab.Queue.Linked.{IsQueue}
use clmalloc.Slab.Queue.Frame.{push-SameLinks, head_apart}
use clmalloc.Slab.Queue.Bodies.{body, push-SameBodies}
use clmalloc.Pool.State.{Machine, pure, ◌>>=◌, ◌>>◌, bind-some, slab_cache_max, PagePool}
use clmalloc.Pool.Shared.{cache_slab}
use clmalloc.Heap.State.{Heap, header_at, set_bin, slab_alloc, list_push, full_cell, partial_cell}
use clmalloc.Heap.Alloc.{place_adopted}
use clmalloc.Heap.Bin.{Beside, Ledger, SlabIs, room, IsBin, Kept-refl}
use clmalloc.Heap.Bin.Moves.{release, activate, push_full, push_partial}
use clmalloc.Heap.Bin.Active.{Handed, slab_alloc-room, slab_alloc-none}
use clmalloc.Heap.Bin.Scan.Found.{cache_slab-fits}
use clmalloc.Heap.Bin.Adopt.{IsChain, IsChain-frame}
use clmalloc.Heap.Bin.Adopt.Adopting.{Adopting, both, Placed}

module _ {f : Beside} {h : Heap} {class : ℕ} {g : Ledger} {active partial full : List ℕ} {p : ℕ}
    {xs : List ℕ} (m : Machine) (b : ℕ)
    (s : Adopting f h class m g active (b ∷ []) partial full p xs) where
  abbrev own : ℕ → ℕ
  own = both active (b ∷ []) partial full xs

  slab_here : SlabIs b m.words (header_at m b) (g b)
  slab_here = s.bin.store.slabs b (ground arith)

  some_slab : b ≢ null
  some_slab = let i = slab_here in omega (arith, i.shape.at)

  count_here : free_count (header_at m b) ≡ room m.nodes g b
  count_here = let i = slab_here in omega (arith, i.held.counted, i.counted, i.shape.few)

  -- With no slot out it goes to the pool's cache.
  place_free :
      (result : Option ℕ)
      → is_fully_free (header_at m b) ≡ true
      → Placed f (place_adopted class b result h m) result h class g own active partial full p xs
  unfolding place_adopted
  place_free result free =
      let fits : leb slab_cache_max m.pool.slab_cache_len ≡ false = ground (arith, s.cache) in
      let none_out : (g b).outs ≡ [] = ((is_fully_free_lem slab_here).0 free).1 in
      let page = s.bin.store.aligned b (ground arith) in
      let m' = record m {
        words = write_next m.words b m.pool.slab_cache;
        pool = record (m.pool) { slab_cache = b; slab_cache_len = add64 (m.pool.slab_cache_len) 1 };
      } in
      (
        m',
        rw (free, place_adopted)
            (bind-some (cache_slab b) (λ _. pure (result, h)) m (cache_slab-fits b m fits)),
        record {
          bin = release b m.pool.slab_cache s.bin;
          rest =
              IsChain-frame b m'.words m.nodes g s.rest page (ground (arith, s.apart b))
                (λ a far. ground arith) (λ a has. refl) (λ a has. refl) (λ a has. refl);
          apart = λ a. omega (arith, s.apart a);
          others = s.others;
          queue = s.queue;
          cache = omega (arith, s.cache);
        },
        record {
          outs = λ a. refl;
          fewer = λ a. omega arith;
          released = λ a has gone. elim (Bool-cases (a == b)) [
            | inl e ↦ let this : a ≡ b = ground arith in rw this none_out
            | inr e ↦ absurd (ground arith)
          ];
          same_id = refl;
          others = λ c ne. refl;
        },
      )

  -- Pushing the slab onto a list of the heap leaves the chain as it is.
  push-IsChain :
      (c : ℕ) (ys : List ℕ)
      → IsQueue m.nodes c ys
      → ((a : ℕ) → 0 < count a xs → count a ys ≡ 0)
      → IsChain class m.words (slab_list_push m.nodes c b) g p xs
  push-IsChain c ys q off =
      let page = s.bin.store.aligned b (ground arith) in
      IsChain-frame b m.words (slab_list_push m.nodes c b) g s.rest page (ground (arith, s.apart b))
        (λ a far. refl)
        (λ a has.
          let i = s.rest.slabs a has in
          (push-SameLinks m.nodes c b a (ground (arith, s.apart a))
            (head_apart m.nodes c a ys q (omega (arith, i.shape.at)) (off a has))).0)
        (λ a has. push-SameBodies m.nodes c b a) (λ a has. refl)

  -- With slots left, but not needed, it goes to the partial list.
  place_partial :
      (ptr : ℕ)
      → is_fully_free (header_at m b) ≡ false
      → 0 < room m.nodes g b
      → Placed f
          (place_adopted class b (some ptr) h m)
          (some ptr)
          h
          class
          g
          own
          active
          (b ∷ partial)
          full
          p
          xs
  unfolding place_adopted list_push
  place_partial ptr busy left =
      let some_free : ltb 0 (free_count (header_at m b)) ≡ true = ground (arith, count_here) in
      (
        record m { nodes = slab_list_push m.nodes (partial_cell h class) b },
        rw (busy, place_adopted, some_free) refl,
        record {
          bin = push_partial b some_slab s.bin left;
          rest =
              push-IsChain (partial_cell h class) partial s.bin.partials
                (λ a has. omega (arith, s.apart a));
          apart = λ a. omega (arith, s.apart a);
          others = s.others;
          queue = s.queue;
          cache = omega (arith, s.cache);
        },
        Kept-refl h class g _ _ (λ a. omega arith),
      )

  -- With none left it goes to the full list.
  place_full :
      (result : Option ℕ)
      → is_fully_free (header_at m b) ≡ false
      → room m.nodes g b ≡ 0
      → Placed f
          (place_adopted class b result h m)
          result
          h
          class
          g
          own
          active
          partial
          (b ∷ full)
          p
          xs
  unfolding place_adopted list_push
  place_full result busy none_left =
      let none_free : ltb 0 (free_count (header_at m b)) ≡ false = ground (arith, count_here) in
      (
        record m { nodes = slab_list_push m.nodes (full_cell h class) b },
        run result none_free,
        record {
          bin = push_full b some_slab s.bin none_left;
          rest =
              push-IsChain (full_cell h class) full s.bin.fulls (λ a has. omega (arith, s.apart a));
          apart = λ a. omega (arith, s.apart a);
          others = s.others;
          queue = s.queue;
          cache = omega (arith, s.cache);
        },
        Kept-refl h class g _ _ (λ a. omega arith),
      )
    where
      run :
          (result : Option ℕ)
          → ltb 0 (free_count (header_at m b)) ≡ false
          → place_adopted class b result h m
            ≡ some ((result, h), record m { nodes = slab_list_push m.nodes (full_cell h class) b })
      run (some ptr) none_free = rw (busy, place_adopted, none_free) refl
      run none none_free =
          let nothing = slab_alloc-none m b (g b) slab_here none_left in
          rw (busy, place_adopted, nothing, ◌>>=◌, none_free) refl

  -- The first slab with a slot serves the request, and becomes the active one.
  place_active :
      active ≡ []
      → is_fully_free (header_at m b) ≡ false
      → 0 < room m.nodes g b
      → (ptr : ℕ) × (g' : Ledger) × (m' : Machine) × (place_adopted class b none h m
          ≡ some ((some ptr, set_bin h class b), m'))
        × Adopting f (set_bin h class b) class m' g' (b ∷ []) [] partial full p xs
        × Handed g g' b ptr
  unfolding place_adopted
  place_active idle busy left =
      let i : IsBin f h class m.words m.nodes g [] (b ∷ []) partial full = rw idle at (s.bin) in
      let (ptr, g', m', run, i', given, pool, far, same) =
        slab_alloc-room m b (activate b some_slab i) left in
      let page = s.bin.store.aligned b (ground arith) in
      let elsewhere : (a : ℕ) → 0 < count a xs → a ≢ b =
        λ a has e. absurd (ground (arith, s.apart b, ap (λ (q : ℕ). count q xs) e)) in
      (
        ptr,
        g',
        m',
        rw (busy, place_adopted)
            (bind-some (slab_alloc b)
              (λ (slot : Option ℕ). elim slot [
                | some q ↦ pure (some q, set_bin h class b)
                | none ↦
                    if ltb 0 (free_count (header_at m b))
                    then (list_push (partial_cell h class) b >> pure (none, h))
                    else (list_push (full_cell h class) b >> pure (none, h))
              ])
              m run),
        record {
          bin = i';
          rest =
              IsChain-frame b m'.words m'.nodes g' s.rest page (ground (arith, s.apart b))
                (λ a away. ap (λ (w : Words). w a) far)
                (λ a has. ap (λ (hd : SlabHeader). hd.next_link) (same a (elsewhere a has)).0)
                (λ a has. ap body (same a (elsewhere a has)).0)
                (λ a has. (same a (elsewhere a has)).1);
          apart = λ a. omega (arith, s.apart a);
          others = s.others;
          queue = ap (λ (q : PagePool). q.abandoned) pool ∙ s.queue;
          cache = omega (arith, s.cache, ap (λ (q : PagePool). q.slab_cache_len) pool);
        },
        given,
      )

  -- Once a slot is found, the slab goes to one of the lists or to the pool's cache.
  pub place_some :
      (ptr : ℕ)
      → (partial' full' : List ℕ) × Placed f
          (place_adopted class b (some ptr) h m)
          (some ptr)
          h
          class
          g
          own
          active
          partial'
          full'
          p
          xs
  place_some ptr = elim (Bool-cases (is_fully_free (header_at m b))) [
    | inl free ↦ (partial, full, place_free (some ptr) free)
    | inr busy ↦ elim (Bool-cases (ltb 0 (room m.nodes g b))) [
      | inl e ↦ (b ∷ partial, full, place_partial ptr busy (ground arith))
      | inr e ↦ (partial, b ∷ full, place_full (some ptr) busy (ground arith))
    ]
  ]

  -- As long as none is found, it serves the request, or it has no slot and goes to the full list, or all
  -- of its slots are free and it goes to the pool's cache.
  pub place_none :
      active ≡ []
      → (g b).remotes ≡ []
      → ((a : ℕ) → 0 < count a full → (g a).remotes ≡ [])
      → ((full' : List ℕ) × Placed f
            (place_adopted class b none h m)
            none
            h
            class
            g
            own
            active
            partial
            full'
            p
            xs
          × ((a : ℕ) → 0 < count a full' → (g a).remotes ≡ []))
        ⊎ ((ptr : ℕ) × (g' : Ledger) × (m' : Machine) × (place_adopted class b none h m
              ≡ some ((some ptr, set_bin h class b), m'))
            × Adopting f (set_bin h class b) class m' g' (b ∷ []) [] partial full p xs
            × Handed g g' b ptr)
  place_none idle drained sent = elim (Bool-cases (is_fully_free (header_at m b))) [
    | inl free ↦ inl (full, place_free none free, sent)
    | inr busy ↦ elim (Bool-cases (ltb 0 (room m.nodes g b))) [
      | inl e ↦ inr (place_active idle busy (ground arith))
      | inr e ↦ inl (
        b ∷ full,
        place_full none busy (ground arith),
        λ a has. elim (Bool-cases (a == b)) [
          | inl t ↦ let this : a ≡ b = ground arith in rw this drained
          | inr t ↦ sent a (ground arith)
        ],
      )
    ]
  ]
