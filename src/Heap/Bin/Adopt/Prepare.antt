-- ===== src/Heap/Bin/Adopt/Prepare.antt =====
-- What `try_adopt` of src/heap.rs does to a slab of the chain before it looks for a place for it.
use clmalloc.Base.{ℕ, true, false, ◌<◌, ◌≡◌, ◌≢◌, ◌∙◌, ap, refl, some, List, [], ◌∷◌, arith, ◌==◌}
use clmalloc.Base.Fun.{update}
use clmalloc.Slab.Links.{Words, null, count}
use clmalloc.Slab.Header.{SlabHeader, nowhere, drain_remote}
use clmalloc.Slab.Queue.{next_link, clear_links, set_next_link, set_prev_link}
use clmalloc.Slab.Queue.Bodies.{body}
use clmalloc.Pool.State.{Machine, Cmd, ◌>>◌}
use clmalloc.Pool.Shared.{inc_adopt_count}
use clmalloc.Heap.State.{Heap, header_at, set_header, unlinked, set_heap_id, slab_drain_remote}
use clmalloc.Heap.Routes.{stored}
use clmalloc.Heap.Bin.{Beside, Slots, Ledger, SlabIs, owned, IsBin}
use clmalloc.Heap.Bin.Scan.{drain_remote-Rewrites, drained_slots}
use clmalloc.Heap.Bin.Scan.Found.{update-outs}
use clmalloc.Heap.Bin.Adopt.{IsChain, IsChain-frame, bring_in}

-- The calls of `try_adopt` up to the counter.
abbrev pub prepare : ℕ → ℕ → ℕ → Cmd (Unit {0})
prepare class b id =
    unlinked b >> (set_heap_id b id >> (slab_drain_remote b >> inc_adopt_count class))

-- The header of an adopted slab before its drain.
abbrev adopted_header : SlabHeader → ℕ → SlabHeader
adopted_header hd id = record hd { next_link = null; prev_link = nowhere; heap_id = id }

adopted_header-SlabIs :
    (a id : ℕ) (w : Words) (hd : SlabHeader) (s : Slots)
    → SlabIs a w hd s
    → SlabIs a w (adopted_header hd id) s
adopted_header-SlabIs a id w hd s i = record {
  shape = i.shape;
  held = i.held;
  sent = i.sent;
  once = i.once;
  carved = i.carved;
  counted = i.counted;
  cursor = i.cursor;
}

-- After it the slab is loose in the heap, well-formed and drained, and the rest of the chain is as it was.
pub record Prepared (f : Beside) (h : Heap) (class : ℕ) (m m' : Machine) (g g' : Ledger)
    (active partial full : List ℕ) (b : ℕ) (xs : List ℕ) : Type 0 where
  pub bin : IsBin f h class m'.words m'.nodes g' active (b ∷ []) partial full
  pub rest : IsChain class m'.words m'.nodes g' (next_link m.nodes b) xs
  pub drained : (g' b).remotes ≡ []
  pub outs : (a : ℕ) → (g' a).outs ≡ (g a).outs
  pub queue : m'.pool.abandoned ≡ m.pool.abandoned
  pub cache : m'.pool.slab_cache_len ≡ m.pool.slab_cache_len

pub prepare-Prepared :
    {f : Beside} (h : Heap) (class : ℕ) (m : Machine) (g : Ledger) (active partial full : List ℕ)
    (p b : ℕ) (xs : List ℕ)
    → IsBin f h class m.words m.nodes g active [] partial full
    → IsChain class m.words m.nodes g p (b ∷ xs)
    → owned active [] partial full b ≡ 0
    → ¬ f.slabs b
    → count b xs ≡ 0
    → (m' : Machine) × (g' : Ledger) × (prepare class b h.id m ≡ some (tt, m'))
      × Prepared f h class m m' g g' active partial full b xs
      × ((a : ℕ) → a ≢ b → g' a ≡ g a)
unfolding unlinked clear_links set_next_link set_prev_link set_heap_id slab_drain_remote
    inc_adopt_count
prepare-Prepared {f} h class m g active partial full p b xs i c new free alone =
    let m1 = record m { nodes = clear_links m.nodes b } in
    let m2 = set_header m1 b (record (header_at m1 b) { heap_id = h.id }) in
    let (_, w, hd) = drain_remote m2.words (header_at m2 b) in
    let m3 = stored m2 b w hd in
    let self : (b == b) ≡ true = ground arith in
    let at : header_at m2 b ≡ adopted_header (header_at m b) h.id = rw self refl in
    let s : SlabIs b m2.words (header_at m2 b) (g b) =
      rw at
        (adopted_header-SlabIs b h.id m.words (header_at m b) (g b) (c.slabs b (ground arith))) in
    let r = drain_remote-Rewrites m2 b (g b) {id = h.id} s (rw at refl) in
    let t = drained_slots (g b) in
    let page = c.aligned b (ground arith) in
    let done : header_at m3 b ≡ hd = rw self refl in
    let kind : (header_at m2 b).size_class_index ≡ class =
      ap (λ (x : SlabHeader). x.size_class_index) at ∙ c.indexed b (ground arith) in
    let others : (a : ℕ) → a ≢ b → header_at m3 a ≡ header_at m a =
      λ a ne. let apart : (a == b) ≡ false = ground arith in rw apart refl in
    let elsewhere : (a : ℕ) → 0 < count a xs → a ≢ b =
      λ a has e. absurd (omega (arith, ap (λ (q : ℕ). count q xs) e)) in
    let behind : IsChain class m.words m.nodes g (next_link m.nodes b) xs = record {
      chain = c.chain.2;
      aligned = λ a has. c.aligned a (omega arith);
      slabs = λ a has. c.slabs a (omega arith);
      indexed = λ a has. c.indexed a (omega arith);
    } in
    (
      _,
      update g b t,
      refl,
      record {
        bin =
            bring_in b w m3.nodes t i new free page r.far (rw done r.slab) (rw done r.mine)
              (rw done (r.index ∙ kind)) others (λ q. refl);
        rest =
            IsChain-frame b w m3.nodes (update g b t) behind page alone r.far
              (λ a has. ap (λ (x : SlabHeader). x.next_link) (others a (elsewhere a has)))
              (λ a has. ap body (others a (elsewhere a has)))
              (λ a has.
                let apart : (a == b) ≡ false = ground (arith, elsewhere a has) in rw apart refl);
        drained = rw self refl;
        outs = λ a. update-outs g b t a refl;
        queue = refl;
        cache = refl;
      },
      λ a ne. let apart : (a == b) ≡ false = ground arith in rw apart refl,
    )
