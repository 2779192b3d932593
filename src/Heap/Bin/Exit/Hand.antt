-- ===== src/Heap/Bin/Exit/Hand.antt =====
-- `give_up`: what the drop of a heap does with one slab (src/heap.rs), with `abandon_slab` of src/pool.rs.
use clmalloc.Base.{
  ℕ, Bool, if◌then◌else◌, true, false, ◌⊎◌, ◌^◌, ◌+◌, ◌≤◌, ◌<◌, ◌≡◌, ◌≢◌, ◌∙◌, ap, refl, inl, inr,
  Option, some, List, [], ◌∷◌, arith, ◌==◌, leb, Bool-cases,
}
use clmalloc.Base.Fun.{update, update_self, update_ne}
use clmalloc.Base.Words64.{add64}
use clmalloc.SizeClass.Align.{Multiple}
use clmalloc.Slab.Links.{Words, null, count, write_next}
use clmalloc.Slab.Header.{SlabHeader, slab_size, is_fully_free, drain_remote}
use clmalloc.Slab.Header.Lifecycle.{is_fully_free_lem}
use clmalloc.Slab.Queue.{Nodes, next_link, set_next_link}
use clmalloc.Slab.Queue.Bodies.{body}
use clmalloc.Metrics
use clmalloc.Pool.State.{Machine, slab_cache_max}
use clmalloc.Pool.Shared.{cache_slab, abandon_slab}
use clmalloc.Heap.State.{Heap, header_at, slab_drain_remote}
use clmalloc.Heap.Free.{give_up}
use clmalloc.Heap.Routes.{stored}
use clmalloc.Heap.Bin.{Beside, Slots, Ledger, owned, IsBin, Kept}
use clmalloc.Heap.Bin.Rest.{Untouched-less, not_beside}
use clmalloc.Heap.Bin.Store.{IsStore-sub, SlabIs-same_body}
use clmalloc.Heap.Bin.Moves.{Rewrites, release}
use clmalloc.Heap.Bin.Scan.{drain_remote-Rewrites, drained_slots}
use clmalloc.Heap.Bin.Scan.Found.{update-outs, cache_slab-fits}
use clmalloc.Heap.Bin.Adopt.{IsChain, IsChain-frame, bring_in}
use clmalloc.Heap.Bin.Adopt.Adopting.{both}
use clmalloc.Heap.Bin.Exit.{Leaving}

-- Without its loose slab the heap is as well-formed.
forget :
    {f : Beside} {h : Heap} {class : ℕ} {w : Words} {n : Nodes} {g : Ledger}
    {active partial full : List ℕ} (b : ℕ)
    → IsBin f h class w n g active (b ∷ []) partial full
    → IsBin f h class w n g active [] partial full
forget {f} {active = active} {partial} {full} b i = record {
  store = IsStore-sub i.store (owned active [] partial full) (λ a. omega arith);
  current = i.current;
  partials = i.partials;
  fulls = i.fulls;
  once = λ a. omega (arith, i.once a);
  ready = i.ready;
  spent = i.spent;
  beside = Untouched-less i.beside (owned active [] partial full) (λ a. omega arith);
}

-- The slab `b` is the first that waits for adoption.
abbrev abandoned : Machine → ℕ → ℕ → Machine
abandoned m b class = record m {
  nodes = set_next_link m.nodes b (m.pool.abandoned class);
  pool = record (m.pool) {
    abandoned = update m.pool.abandoned class b;
    state = record (m.pool.state) {
      metrics = record (m.pool.state.metrics) {
        abandon_count = Metrics.inc_at (m.pool.state.metrics.abandon_count) class 1;
      };
    };
  };
}

abandon_slab-abandoned :
    (m : Machine) (b class : ℕ)
    → (header_at m b).size_class_index ≡ class
    → abandon_slab b m ≡ some (tt, abandoned m b class)
unfolding abandon_slab
abandon_slab-abandoned m b class e = ap (λ (c : ℕ). some (tt, abandoned m b c)) e

-- What the call leaves: the slab is gone from the heap, the slabs that wait are `xs'`.
abbrev pub GivenUp :
    Beside
    → Option (Unit {0} × Machine)
    → Heap
    → ℕ
    → Ledger
    → (ℕ → ℕ)
    → List ℕ
    → List ℕ
    → List ℕ
    → Type 0
GivenUp f run h class g own active partial full =
    (m' : Machine) × (g' : Ledger) × (xs' : List ℕ) × (run ≡ some (tt, m'))
    × Leaving f h class m' g' active [] partial full xs'
    × Kept h h class g g' own (both active [] partial full xs')

module _ {f : Beside} {h : Heap} {class : ℕ} {g : Ledger} {active partial full xs : List ℕ}
    (m : Machine) (b : ℕ) (s : Leaving f h class m g active (b ∷ []) partial full xs) where
  abbrev own : ℕ → ℕ
  own = both active (b ∷ []) partial full xs

  abbrev w : Words
  w = (drain_remote m.words (header_at m b)).1

  abbrev hd : SlabHeader
  hd = (drain_remote m.words (header_at m b)).2

  abbrev t : Slots
  t = drained_slots (g b)

  abbrev g1 : Ledger
  g1 = update g b t

  abbrev m1 : Machine
  m1 = stored m b w hd

  rewrites : Rewrites h.id m.words w m.nodes b hd t
  rewrites =
      drain_remote-Rewrites m b (g b) (s.bin.store.slabs b (ground arith))
        (s.bin.store.mine b (ground arith))

  page : Multiple slab_size b
  page = s.bin.store.aligned b (ground arith)

  header_here : header_at m1 b ≡ hd
  header_here = update_self m.nodes.header b hd

  hd-index : hd.size_class_index ≡ (header_at m b).size_class_index
  unfolding drain_remote
  hd-index = refl

  elsewhere : (a : ℕ) → 0 < count a xs → a ≢ b
  elsewhere a has e = absurd (ground (arith, s.apart b, ap (λ (q : ℕ). count q xs) e))

  -- The memory after the drain, or with another forward link of the slab.
  loose_in :
      (n' : Nodes)
      → body (n'.header b) ≡ body hd
      → ((a : ℕ) → a ≢ b → n'.header a ≡ header_at m a)
      → ((c : ℕ) → n'.cell c ≡ m.nodes.cell c)
      → IsBin f h class w n' g1 active (b ∷ []) partial full
  loose_in n' same others cells =
      bring_in b w n' t (forget b s.bin) (ground (arith, s.bin.once b))
        (not_beside s.bin.beside b (ground arith)) page rewrites.far
        (SlabIs-same_body b w hd (n'.header b) t same rewrites.slab)
        (ap (λ (x : SlabHeader). x.heap_id) same ∙ rewrites.mine)
        (ap (λ (x : SlabHeader). x.size_class_index) same
          ∙ rewrites.index
          ∙ s.bin.store.indexed b (ground arith))
        others cells

  still_waiting :
      (v : Words) (n' : Nodes)
      → ((a : ℕ) → (a < b) ⊎ (b + 2 ^ 16 ≤ a) → v a ≡ m.words a)
      → ((a : ℕ) → a ≢ b → n'.header a ≡ header_at m a)
      → IsChain class v n' g1 (m.pool.abandoned class) xs
  still_waiting v n' far others =
      IsChain-frame b v n' g1 s.waiting page (ground (arith, s.apart b)) far
        (λ a has. ap (λ (x : SlabHeader). x.next_link) (others a (elsewhere a has)))
        (λ a has. ap body (others a (elsewhere a has)))
        (λ a has. update_ne g b a t (elsewhere a has))

  give_up-free : is_fully_free hd ≡ true → GivenUp f (give_up b m) h class g own active partial full
  unfolding give_up slab_drain_remote
  give_up-free free =
      let fits : leb slab_cache_max m.pool.slab_cache_len ≡ false = ground (arith, s.cache) in
      let none_out : t.outs ≡ [] = ((is_fully_free_lem rewrites.slab).0 free).1 in
      let others : (a : ℕ) → a ≢ b → header_at m1 a ≡ header_at m a =
        λ a ne. update_ne m.nodes.header b a hd ne in
      let m2 = record m1 {
        words = write_next w b m.pool.slab_cache;
        pool = record (m.pool) { slab_cache = b; slab_cache_len = add64 (m.pool.slab_cache_len) 1 };
      } in
      (
        m2,
        g1,
        xs,
        rw (header_here, free) (cache_slab-fits b m1 fits),
        record {
          bin =
              release b m.pool.slab_cache
                (loose_in m1.nodes (ap body header_here) others (λ c. refl));
          waiting =
              still_waiting m2.words m1.nodes
                (λ a away. update_ne w b a m.pool.slab_cache (ground arith) ∙ rewrites.far a away)
                others;
          apart = λ a. omega (arith, s.apart a);
          others = s.others;
          queue = s.queue;
          cache = omega (arith, s.cache);
        },
        record {
          outs = λ a. update-outs g b t a refl;
          fewer = λ a. omega arith;
          released = λ a has gone. elim (Bool-cases (a == b)) [
            | inl e ↦ let this : a ≡ b = ground arith in rw this none_out
            | inr e ↦ absurd (ground arith)
          ];
          same_id = refl;
          others = λ c ne. refl;
        },
      )

  -- A slab with slots allocated becomes the first of those that wait for adoption.
  give_up-abandoned :
      is_fully_free hd ≡ false → GivenUp f (give_up b m) h class g own active partial full
  unfolding give_up slab_drain_remote set_next_link
  give_up-abandoned busy =
      let index : (header_at m1 b).size_class_index ≡ class =
        ap (λ (x : SlabHeader). x.size_class_index) header_here
        ∙ hd-index
        ∙ s.bin.store.indexed b (ground arith) in
      let m2 = abandoned m1 b class in
      let n2 = m2.nodes in
      let test : is_fully_free (header_at m1 b) ≡ false =
        ap (λ (x : SlabHeader). is_fully_free x) header_here ∙ busy in
      let branch = λ (yes_free : Bool). (if yes_free then cache_slab b else abandon_slab b) m1 in
      let others : (a : ℕ) → a ≢ b → header_at m2 a ≡ header_at m a =
        λ a ne. update_ne m1.nodes.header b a _ ne ∙ update_ne m.nodes.header b a hd ne in
      let same : body (header_at m2 b) ≡ body hd =
        ap body (update_self m1.nodes.header b _) ∙ ap body header_here in
      let next : next_link n2 b ≡ m.pool.abandoned class =
        ap (λ (x : SlabHeader). x.next_link) (update_self m1.nodes.header b _) in
      let first : m2.pool.abandoned class ≡ b = update_self m.pool.abandoned class b in
      let some_slab : b ≢ null = omega (arith, rewrites.slab.shape.at) in
      let i = loose_in n2 same others (λ c. refl) in
      let behind = still_waiting w n2 rewrites.far others in
      (
        m2,
        g1,
        b ∷ xs,
        ap branch test ∙ abandon_slab-abandoned m1 b class index,
        record {
          bin = forget b i;
          waiting = record {
            chain = (first, some_slab, rw next (behind.chain));
            aligned = λ a has. elim (Bool-cases (a == b)) [
              | inl e ↦ let this : a ≡ b = ground arith in rw this page
              | inr e ↦ behind.aligned a (ground arith)
            ];
            slabs = λ a has. elim (Bool-cases (a == b)) [
              | inl e ↦ let this : a ≡ b = ground arith in rw this (i.store.slabs b (ground arith))
              | inr e ↦ behind.slabs a (ground arith)
            ];
            indexed = λ a has. elim (Bool-cases (a == b)) [
              | inl e ↦
                  let this : a ≡ b = ground arith in rw this (i.store.indexed b (ground arith))
              | inr e ↦ behind.indexed a (ground arith)
            ];
          };
          apart = λ a. omega (arith, s.apart a);
          others = λ a has. elim (Bool-cases (a == b)) [
            | inl e ↦
                let this : a ≡ b = ground arith in
                rw this (not_beside s.bin.beside b (ground arith))
            | inr e ↦ s.others a (ground arith)
          ];
          queue = λ c ne. update_ne m.pool.abandoned class c b ne ∙ s.queue c ne;
          cache = omega (arith, s.cache);
        },
        record {
          outs = λ a. update-outs g b t a refl;
          fewer = λ a. omega arith;
          released = λ a has gone. absurd (omega arith);
          same_id = refl;
          others = λ c ne. refl;
        },
      )

  pub give_up-GivenUp : GivenUp f (give_up b m) h class g own active partial full
  give_up-GivenUp = elim (Bool-cases (is_fully_free hd)) [
    | inl free ↦ give_up-free free
    | inr busy ↦ give_up-abandoned busy
  ]
