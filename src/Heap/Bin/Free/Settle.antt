-- ===== src/Heap/Bin/Free/Settle.antt =====
-- `settle`, the end of `Heap::dealloc` of src/heap.rs: where the slab of the freed slot goes.
use clmalloc.Base.{
  ℕ, suc, true, false, ◌≤◌, ◌<◌, ◌≡◌, ◌≢◌, refl, inl, inr, List, [], ◌∷◌, arith, ◌==◌, ltb, leb,
  Bool-cases,
}
use clmalloc.Base.Fun.{update}
use clmalloc.Base.Words64.{add64}
use clmalloc.Slab.Links.{Words, null, count, write_next}
use clmalloc.Slab.Header.{SlabHeader, is_fully_free, free_count, dealloc_local}
use clmalloc.Slab.Header.Lifecycle.{is_fully_free_lem}
use clmalloc.Slab.Header.Ops.Remove.{remove, count-remove}
use clmalloc.Slab.Queue.{slab_list_remove, slab_list_push}
use clmalloc.Pool.State.{Machine, pure, bind-some, slab_cache_max}
use clmalloc.Heap.State.{Heap, header_at, set_bin, partial_cell, list_remove, list_push}
use clmalloc.Heap.Free.{reclaim_slab, settle}
use clmalloc.Heap.Routes.{stored}
use clmalloc.Heap.Bin.{Beside, Slots, Ledger, room, owned, Active-cases, IsBin}
use clmalloc.Heap.Bin.Moves.{Rewrites, write_active, take_full, release, activate, push_partial}
use clmalloc.Heap.Bin.Moves.Partial.{write_partial, take_partial}
use clmalloc.Heap.Bin.Scan.Found.{cache_slab-fits}
use clmalloc.Heap.Bin.Free.{Freed, FreedBy, freed_slots, dealloc_local-Rewrites}

module _ {f : Beside} {h : Heap} {class : ℕ} {g : Ledger} {active partial full : List ℕ}
    (m : Machine) (b ptr : ℕ) (i : IsBin f h class m.words m.nodes g active [] partial full)
    (queue : m.pool.abandoned ≡ f.abandoned) (held : 0 < owned active [] partial full b)
    (out : 0 < count ptr (g b).outs) where
  abbrev own : ℕ → ℕ
  own = owned active [] partial full

  abbrev v : Words
  v = (dealloc_local m.words (header_at m b) ptr).0

  abbrev hd : SlabHeader
  hd = (dealloc_local m.words (header_at m b) ptr).1

  abbrev t : Slots
  t = freed_slots (g b) ptr

  abbrev pub g1 : Ledger
  g1 = update g b t

  abbrev pub m1 : Machine
  m1 = stored m b v hd

  rewrites : Rewrites h.id m.words v m.nodes b hd t
  rewrites = dealloc_local-Rewrites m b ptr (g b) (i.store.slabs b held) (i.store.mine b held) out

  self : (b == b) ≡ true
  self = ground arith

  some_slab : b ≢ null
  some_slab = let s = i.store.slabs b held in omega (arith, s.shape.at)

  header_here : header_at m1 b ≡ hd
  header_here = rw self refl

  -- The effect on the slots, whatever place the slab goes to; if it goes away, none of its slots is out.
  pub freed :
      (h' : Heap) (own' : ℕ → ℕ)
      → ((a : ℕ) → a ≢ b → own' a ≡ own a)
      → own' b ≤ own b
      → (own' b ≡ 0 → is_fully_free hd ≡ true)
      → h'.id ≡ h.id
      → ((c : ℕ) → c ≢ class → h'.bins c ≡ h.bins c)
      → Freed h h' class g g1 own own' b ptr
  freed h' own' same here gone id_same others = record {
    given_back = rw self refl;
    next_out = rw self refl;
    rest = λ a ne. let apart : (a == b) ≡ false = ground arith in rw apart refl;
    fewer = λ a. elim (Bool-cases (a == b)) [
      | inl e ↦ let this : a ≡ b = ground arith in rw this here
      | inr e ↦ omega (arith, same a (ground arith))
    ];
    released = λ a has none_own. elim (Bool-cases (a == b)) [
      | inl e ↦
          let this : a ≡ b = ground arith in
          rw e (((is_fully_free_lem rewrites.slab).0 (gone (rw this at none_own))).1)
      | inr e ↦ absurd (omega (arith, same a (ground arith)))
    ];
    same_id = id_same;
    others = others;
  }

  -- A slab with no slot out leaves its list for the pool's cache.
  reclaimed :
      (partial' full' : List ℕ)
      → IsBin f h class v (slab_list_remove m1.nodes b) g1 active (b ∷ []) partial' full'
      → ((a : ℕ) → a ≢ b → owned active [] partial' full' a ≡ own a)
      → is_fully_free hd ≡ true
      → m.pool.slab_cache_len < slab_cache_max
      → FreedBy f (settle class b h m1) h class g own b ptr
  unfolding settle reclaim_slab list_remove
  reclaimed partial' full' i' same free cache =
      let m2 = record m1 { nodes = slab_list_remove m1.nodes b } in
      let fits : leb slab_cache_max m.pool.slab_cache_len ≡ false = ground arith in
      (
        h,
        record m2 {
          words = write_next m2.words b m2.pool.slab_cache;
          pool = record (m2.pool) {
            slab_cache = b;
            slab_cache_len = add64 (m2.pool.slab_cache_len) 1;
          };
        },
        g1,
        active,
        partial',
        full',
        rw (header_here, settle, free)
            (bind-some (reclaim_slab b) (λ _. pure h) m1 (cache_slab-fits b m2 fits)),
        queue,
        release b m.pool.slab_cache i',
        freed h (owned active [] partial' full') same (omega (arith, i'.once b)) (λ z. free) refl
            (λ c ne. refl),
      )

  frees_here : free_count hd ≡ suc (room m.nodes g b)
  unfolding dealloc_local
  frees_here =
      omega (arith, rewrites.slab.held.counted, rewrites.slab.counted, rewrites.slab.shape.few)

  bump_here : hd.bump_remaining ≡ (header_at m b).bump_remaining
  unfolding dealloc_local
  bump_here = refl

  -- A slab that was full gets a place where allocations find it.
  promoted :
      0 < count b full
      → is_fully_free hd ≡ false
      → FreedBy f (settle class b h m1) h class g own b ptr
  unfolding settle list_remove list_push
  promoted mem busy =
      let i' = take_full b v hd t i mem rewrites in
      let n2 = slab_list_remove m1.nodes b in
      let was_full : (free_count hd == 1) ≡ true = ground (arith, frees_here, i.spent b mem) in
      let left : 0 < room n2 g1 b = rw self (omega arith) in
      elim (Active-cases (h.bins class) active i.current) [
        | inl (idle, none_active) ↦
            let i2 : IsBin f h class v n2 g1 [] (b ∷ []) partial (remove b full) =
              rw none_active at i' in
            (
              set_bin h class b,
              record m1 { nodes = n2 },
              g1,
              b ∷ [],
              partial,
              remove b full,
              rw (header_here, settle, busy, was_full, idle) refl,
              queue,
              activate b some_slab i2,
              freed (set_bin h class b) (owned (b ∷ []) [] partial (remove b full))
                  (λ a ne. rw none_active (ground (arith, count-remove b full a mem)))
                  (rw none_active (ground (arith, count-remove b full b mem)))
                  (λ z. absurd (ground arith)) refl (λ c ne. ground arith),
            )
        | inr (taken_bin, some_active) ↦ (
          h,
          record m1 { nodes = slab_list_push n2 (partial_cell h class) b },
          g1,
          active,
          b ∷ partial,
          remove b full,
          rw (header_here, settle, busy, was_full, taken_bin) refl,
          queue,
          push_partial b some_slab i' left,
          freed h (owned active [] (b ∷ partial) (remove b full))
              (λ a ne. ground (arith, count-remove b full a mem))
              (ground (arith, count-remove b full b mem)) (λ z. absurd (ground arith)) refl
              (λ c ne. refl),
        )
      ]

  -- A slab of the partial list stays there.
  stays :
      0 < count b partial
      → is_fully_free hd ≡ false
      → FreedBy f (settle class b h m1) h class g own b ptr
  unfolding settle
  stays mem busy =
      let had_room : (free_count hd == 1) ≡ false = ground (arith, frees_here, i.ready b mem) in
      (
        h,
        m1,
        g1,
        active,
        partial,
        full,
        rw (header_here, settle, busy, had_room) refl,
        queue,
        write_partial b v hd t i mem rewrites (omega arith),
        freed h own (λ a ne. refl) (omega arith) (λ z. absurd (omega arith)) refl (λ c ne. refl),
      )

  -- A free in a slab that is not the active one.
  pub settled :
      count b active ≡ 0
      → m.pool.slab_cache_len < slab_cache_max
      → FreedBy f (settle class b h m1) h class g own b ptr
  settled inactive cache = elim (Bool-cases (is_fully_free hd)) [
    | inl free ↦ elim (Bool-cases (ltb 0 (count b full))) [
      | inl e ↦
          let mem : 0 < count b full = ground arith in
          reclaimed partial (remove b full) (take_full b v hd t i mem rewrites)
            (λ a ne. ground (arith, count-remove b full a mem)) free cache
      | inr e ↦
          let mem : 0 < count b partial = ground arith in
          reclaimed (remove b partial) full (take_partial b v hd t i mem rewrites)
            (λ a ne. ground (arith, count-remove b partial a mem)) free cache
    ]
    | inr busy ↦ elim (Bool-cases (ltb 0 (count b full))) [
      | inl e ↦ promoted (ground arith) busy
      | inr e ↦ stays (ground arith) busy
    ]
  ]

  -- A free in the active slab.
  pub in_active : active ≡ b ∷ [] → IsBin f h class v m1.nodes g1 active [] partial full
  in_active at =
      let i' : IsBin f h class m.words m.nodes g (b ∷ []) [] partial full = rw at at i in
      rw at (write_active b v hd t i' rewrites)
