-- ===== src/Heap/Bin/Scan/Found.antt =====
-- The three places where the walk puts a slab whose remote stack held slots.
use clmalloc.Base.{
  ℕ, true, false, ◌+◌, ◌≤◌, ◌<◌, ◌≡◌, ◌≢◌, ◌∙◌, sym, refl, inl, inr, some, List, [], ◌∷◌, ◌++◌,
  length, arith, ◌==◌, leb, ltb, Bool-cases,
}
use clmalloc.Base.Fun.{update}
use clmalloc.Base.Words64.{add64}
use clmalloc.Slab.Links.{Words, null, count, write_next}
use clmalloc.Slab.Header.{SlabHeader, is_fully_free, free_count}
use clmalloc.Slab.Header.Lifecycle.{is_fully_free_lem}
use clmalloc.Slab.Queue.{slab_list_remove, slab_list_push}
use clmalloc.Slab.Queue.Frame.{Linked-not_null}
use clmalloc.Slab.Queue.Bodies.{remove-SameBodies, push-SameBodies}
use clmalloc.Pool.State.{Machine, pure, bind-some, slab_cache_max}
use clmalloc.Pool.Shared.{cache_slab}
use clmalloc.Heap.State.{Heap, header_at, list_remove, list_push, set_bin, partial_cell}
use clmalloc.Heap.Alloc.{sort_scanned}
use clmalloc.Heap.Routes.{stored}
use clmalloc.Heap.Bin.{Beside, Slots, Ledger, room, owned, Active-cases, IsBin}
use clmalloc.Heap.Bin.Moves.{Rewrites, take_full, release, activate, push_partial, room-same}
use clmalloc.Heap.Bin.Lists.{count-append, remove-middle}
use clmalloc.Heap.Bin.Scan.{IsScan, Scanned, here}

pub update-outs :
    (g : Ledger) (b : ℕ) (t : Slots) (a : ℕ)
    → t.outs ≡ (g b).outs
    → (update g b t a).outs ≡ (g a).outs
update-outs g b t a e = elim (Bool-cases (a == b)) [
  | inl s ↦ let same : a ≡ b = ground arith in rw (s, same) e
  | inr s ↦ rw s refl
]

-- With a place left in the cache, a slab goes there.
pub cache_slab-fits :
    (b : ℕ) (m : Machine)
    → leb slab_cache_max m.pool.slab_cache_len ≡ false
    → cache_slab b m
      ≡ some (
        tt,
        record m {
          words = write_next m.words b m.pool.slab_cache;
          pool = record (m.pool) {
            slab_cache = b;
            slab_cache_len = add64 (m.pool.slab_cache_len) 1;
          };
        },
      )
unfolding cache_slab
cache_slab-fits b m fits = rw fits refl

module _ {f : Beside} {h : Heap} {class : ℕ} {m : Machine} {g : Ledger}
    {active partial kept todo : List ℕ} (b : ℕ)
    (s : IsScan f h class m g active partial kept (b ∷ todo)) (v : Words) (hd : SlabHeader)
    (t : Slots) (r : Rewrites h.id m.words v m.nodes b hd t) (none_left : t.remotes ≡ [])
    (same_outs : t.outs ≡ (g b).outs) (freed : 0 < length t.frees) where
  abbrev own : ℕ → ℕ
  own = owned active [] partial (kept ++ b ∷ todo)

  abbrev g1 : Ledger
  g1 = update g b t

  abbrev m1 : Machine
  m1 = stored m b v hd

  abbrev m2 : Machine
  m2 = record m1 { nodes = slab_list_remove m1.nodes b }

  once_here : (a : ℕ) → count a active + count a partial + count a kept + count a (b ∷ todo) ≤ 1
  once_here a = omega (arith, s.bin.once a, count-append a kept (b ∷ todo))

  taken : IsBin f h class v m2.nodes g1 active (b ∷ []) partial (kept ++ todo)
  taken =
      let out : count b kept ≡ 0 = ground (arith, once_here b) in
      let i = take_full b v hd t s.bin (here b kept todo) r in
      rw (remove-middle b kept todo out) at i

  header_here : header_at m1 b ≡ hd
  header_here = let self : (b == b) ≡ true = ground arith in rw self refl

  drained_here : (a : ℕ) → 0 < count a kept → (g1 a).remotes ≡ []
  drained_here a has = elim (Bool-cases (a == b)) [
    | inl e ↦ rw e none_left
    | inr e ↦ rw e (s.drained a has)
  ]

  some_slab : b ≢ null
  some_slab = Linked-not_null m.nodes _ _ b (kept ++ b ∷ todo) s.bin.fulls.links (here b kept todo)

  room_here : 0 < room m2.nodes g1 b
  room_here = let self : (b == b) ≡ true = ground arith in rw self (omega (arith, freed))

  able_here : (a : ℕ) → 0 < count a active → 0 < room m2.nodes g1 a
  able_here a has =
      let apart : (a == b) ≡ false = ground (arith, once_here a) in
      let kept_room : room m1.nodes g1 a ≡ room m.nodes g a = rw apart refl in
      omega (
        arith,
        room-same m1.nodes m2.nodes g1 a (remove-SameBodies m1.nodes b),
        kept_room,
        s.able a has,
      )

  found_free : is_fully_free hd ≡ true → Scanned f (sort_scanned class b h m1) h class g own todo
  unfolding sort_scanned list_remove
  found_free free =
      let fits : leb slab_cache_max m.pool.slab_cache_len ≡ false = ground (arith, s.cache) in
      let none_out : t.outs ≡ [] = ((is_fully_free_lem r.slab).0 free).1 in
      (
        h,
        record m2 {
          words = write_next m2.words b m.pool.slab_cache;
          pool = record (m.pool) {
            slab_cache = b;
            slab_cache_len = add64 (m.pool.slab_cache_len) 1;
          };
        },
        g1,
        active,
        partial,
        kept,
        rw (header_here, sort_scanned, free)
            (bind-some (cache_slab b) (λ _. pure h) m2 (cache_slab-fits b m2 fits)),
        record {
          bin = release b m.pool.slab_cache taken;
          drained = drained_here;
          found = s.found;
          able = able_here;
          queue = s.queue;
          cache = omega (arith, s.cache);
        },
        record {
          outs = λ a. update-outs g b t a same_outs;
          fewer = λ a. omega (arith, count-append a kept (b ∷ todo), count-append a kept todo);
          released = λ a has gone. elim (Bool-cases (a == b)) [
            | inl e ↦ let this : a ≡ b = ground arith in rw this (sym same_outs ∙ none_out)
            | inr e ↦
                absurd (ground (arith, count-append a kept (b ∷ todo), count-append a kept todo))
          ];
          same_id = refl;
          others = λ c ne. refl;
        },
      )

  -- A slab with slots free and slots allocated.
  in_use : is_fully_free hd ≡ false → ltb 0 (free_count hd) ≡ true
  in_use busy = ground (arith, r.slab.held.counted, r.slab.counted, r.slab.shape.few, freed)

  found_active :
      is_fully_free hd ≡ false
      → (h.bins class == null) ≡ true
      → active ≡ []
      → Scanned f (sort_scanned class b h m1) h class g own todo
  unfolding sort_scanned list_remove
  found_active busy idle none_active =
      let i : IsBin f h class v m2.nodes g1 [] (b ∷ []) partial (kept ++ todo) =
        rw none_active at taken in
      (
        set_bin h class b,
        m2,
        g1,
        b ∷ [],
        partial,
        kept,
        rw (header_here, sort_scanned, busy, in_use busy, idle) refl,
        record {
          bin = activate b some_slab i;
          drained = drained_here;
          found = λ z. absurd (omega arith);
          able = λ a has. let this : a ≡ b = ground arith in rw this room_here;
          queue = s.queue;
          cache = omega (arith, s.cache);
        },
        record {
          outs = λ a. update-outs g b t a same_outs;
          fewer = λ a.
              rw none_active
                (omega (arith, count-append a kept (b ∷ todo), count-append a kept todo));
          released = λ a has gone. absurd (
              omega (
                arith,
                rw none_active at has,
                count-append a kept (b ∷ todo),
                count-append a kept todo,
              ));
          same_id = refl;
          others = λ c ne. ground arith;
        },
      )

  found_partial :
      is_fully_free hd ≡ false
      → (h.bins class == null) ≡ false
      → 0 < length active
      → Scanned f (sort_scanned class b h m1) h class g own todo
  unfolding sort_scanned list_remove list_push
  found_partial busy taken_bin some_active =
      let n' = slab_list_push m2.nodes (partial_cell h class) b in
      (
        h,
        record m2 { nodes = n' },
        g1,
        active,
        b ∷ partial,
        kept,
        rw (header_here, sort_scanned, busy, in_use busy, taken_bin) refl,
        record {
          bin = push_partial b some_slab taken room_here;
          drained = drained_here;
          found = λ z. absurd (omega arith);
          able = λ a has. omega (
            arith,
            room-same m2.nodes n' g1 a (push-SameBodies m2.nodes (partial_cell h class) b),
            able_here a has,
          );
          queue = s.queue;
          cache = omega (arith, s.cache);
        },
        record {
          outs = λ a. update-outs g b t a same_outs;
          fewer = λ a. omega (arith, count-append a kept (b ∷ todo), count-append a kept todo);
          released = λ a has gone.
              absurd (omega (arith, count-append a kept (b ∷ todo), count-append a kept todo));
          same_id = refl;
          others = λ c ne. refl;
        },
      )

  pub sorted : Scanned f (sort_scanned class b h m1) h class g own todo
  sorted = elim (Bool-cases (is_fully_free hd)) [
    | inl free ↦ found_free free
    | inr busy ↦ elim (Active-cases (h.bins class) active s.bin.current) [
      | inl (idle, none_active) ↦ found_active busy idle none_active
      | inr (taken_bin, some_active) ↦ found_partial busy taken_bin some_active
    ]
  ]
