-- ===== src/Heap/Bin/Active.antt =====
-- Serving an allocation from the active slab (src/heap.rs).
use clmalloc.Base.{
  ℕ, true, false, ◌+◌, ◌<◌, ◌≡◌, ◌≢◌, ◌∙◌, ◌⊎◌, ap, refl, inl, inr, Option, none, some, List, [],
  ◌∷◌, length, arith, ◌==◌, ltb, Bool-cases,
}
use clmalloc.Base.Fun.{update, update_same}
use clmalloc.Slab.Links.{count}
use clmalloc.Slab.Header.{SlabHeader}
use clmalloc.Slab.Header
use clmalloc.Slab.Header.Frame.{alloc-links, alloc-room}
use clmalloc.Slab.Header.Ops.{alloc-full}
use clmalloc.Pool.State.{Machine, bind-some}
use clmalloc.Heap.State.{Heap, header_at, set_header, slab_alloc, slab_drain_remote}
use clmalloc.Heap.Alloc.{alloc_active}
use clmalloc.Heap.Routes.{stored}
use clmalloc.Heap.Bin.{Beside, Slots, Ledger, SlabIs, room, IsBin}
use clmalloc.Heap.Bin.Moves.{write_active}
use clmalloc.Heap.Bin.Scan.{drain_remote-Rewrites, drained_slots}
use clmalloc.Heap.Bin.Scan.Found.{update-outs}

-- One slot of one slab is handed out that was not out before; no other slot changes hands.
pub record Handed (g g' : Ledger) (slab slot : ℕ) : Type 0 where
  pub fresh : count slot (g slab).outs ≡ 0
  pub taken : (g' slab).outs ≡ slot ∷ (g slab).outs
  pub rest : (a : ℕ) → a ≢ slab → (g' a).outs ≡ (g a).outs

length_zero : (xs : List ℕ) → length xs ≡ 0 → xs ≡ []
length_zero [] e = refl
length_zero (x ∷ xs) e = absurd (omega arith)

-- A slab without a slot hands out nothing and does not change.
pub slab_alloc-none :
    (m : Machine) (b : ℕ) (t : Slots)
    → SlabIs b m.words (header_at m b) t
    → length t.frees + (header_at m b).bump_remaining ≡ 0
    → slab_alloc b m ≡ some (none, m)
unfolding slab_alloc
slab_alloc-none m b t s none_left =
    let s' = rw (length_zero t.frees (omega arith)) at s in
    let quiet = alloc-full s' (omega arith) in
    rw quiet (
      ap (λ (f : ℕ → SlabHeader). some (none, record m { nodes = record (m.nodes) { header = f } }))
        (update_same m.nodes.header b))

module _ {f : Beside} {h : Heap} {class : ℕ} (m : Machine) {g : Ledger} {partial full : List ℕ}
    (b : ℕ) (i : IsBin f h class m.words m.nodes g (b ∷ []) [] partial full) where
  slab_here : SlabIs b m.words (header_at m b) (g b)
  slab_here = i.store.slabs b (ground arith)

  mine_here : (header_at m b).heap_id ≡ h.id
  mine_here = i.store.mine b (ground arith)

  -- An active slab with a slot serves the request.
  pub slab_alloc-room :
      0 < room m.nodes g b
      → (slot : ℕ) × (g' : Ledger) × (m' : Machine) × (slab_alloc b m ≡ some (some slot, m'))
        × IsBin f h class m'.words m'.nodes g' (b ∷ []) [] partial full
        × Handed g g' b slot
        × (m'.pool ≡ m.pool)
        × (m'.words ≡ m.words)
        × ((a : ℕ) → a ≢ b → (header_at m' a ≡ header_at m a) × (g' a ≡ g a))
  unfolding slab_alloc
  slab_alloc-room left =
      let (slot, frees, got, s) = alloc-room (g b).frees slab_here left in
      let hd = (Header.alloc b m.words (header_at m b)).1 in
      let (next, prev, owner, kind) = alloc-links b m.words (header_at m b) in
      let t : Slots = record { frees = frees; remotes = (g b).remotes; outs = slot ∷ (g b).outs } in
      let self : (b == b) ≡ true = ground arith in
      (
        slot,
        update g b t,
        set_header m b hd,
        rw got refl,
        write_active b m.words hd t i (record {
          far = λ a far. refl;
          slab = s;
          mine = owner ∙ mine_here;
          index = kind;
          next = next;
          prev = prev;
        }),
        record {
          fresh = ground (arith, s.once slot);
          taken = rw self refl;
          rest = λ a ne. let apart : (a == b) ≡ false = ground arith in rw apart refl;
        },
        refl,
        refl,
        λ a ne. let apart : (a == b) ≡ false = ground arith in (rw apart refl, rw apart refl),
      )

  slab_alloc-full : room m.nodes g b ≡ 0 → slab_alloc b m ≡ some (none, m)
  slab_alloc-full none_left = slab_alloc-none m b (g b) slab_here none_left

  drain_active :
      (m' : Machine) × (g' : Ledger) × (slab_drain_remote b m ≡ some (tt, m'))
      × IsBin f h class m'.words m'.nodes g' (b ∷ []) [] partial full
      × ((g' b).remotes ≡ [])
      × ((a : ℕ) → (g' a).outs ≡ (g a).outs)
      × (m'.pool ≡ m.pool)
  unfolding slab_drain_remote
  drain_active =
      let (_, w, hd) = Header.drain_remote m.words (header_at m b) in
      let self : (b == b) ≡ true = ground arith in
      (
        stored m b w hd,
        update g b (drained_slots (g b)),
        refl,
        write_active b w hd (drained_slots (g b)) i
            (drain_remote-Rewrites m b (g b) slab_here mine_here),
        rw self refl,
        λ a. update-outs g b (drained_slots (g b)) a refl,
        refl,
      )

-- What an allocation from the active slab does: it serves the request, or finds that the slab has no
-- slot left, not even one that other threads freed.
abbrev pub ActiveResult :
    Beside
    → Option (Option ℕ × Machine)
    → Heap
    → ℕ
    → Machine
    → Ledger
    → ℕ
    → List ℕ
    → List ℕ
    → Type 0
ActiveResult f run h class m g b partial full =
    ((slot : ℕ) × (g' : Ledger) × (m' : Machine) × (run ≡ some (some slot, m'))
      × IsBin f h class m'.words m'.nodes g' (b ∷ []) [] partial full
      × Handed g g' b slot
      × (m'.pool ≡ m.pool))
    ⊎ ((room m.nodes g b ≡ 0)
        × (g' : Ledger) × (m' : Machine) × (run ≡ some (none, m'))
        × IsBin f h class m'.words m'.nodes g' (b ∷ []) [] partial full
        × (room m'.nodes g' b ≡ 0)
        × ((g' b).remotes ≡ [])
        × ((a : ℕ) → (g' a).outs ≡ (g a).outs)
        × (m'.pool ≡ m.pool))

pub alloc_active-ActiveResult :
    {f : Beside} (h : Heap) (class : ℕ) (m : Machine) (g : Ledger) (partial full : List ℕ)
    → IsBin f h class m.words m.nodes g (h.bins class ∷ []) [] partial full
    → ActiveResult f (alloc_active class h m) h class m g (h.bins class) partial full
unfolding alloc_active
alloc_active-ActiveResult {f} h class m g partial full i =
    let b = h.bins class in
    elim (Bool-cases (ltb 0 (room m.nodes g b))) [
      | inl e ↦
          let (slot, g', m', run, after, given, pool, _, _) =
            slab_alloc-room m b i (ground arith) in
          inl (slot, g', m', bind-some (slab_alloc b) _ m run, after, given, pool)
      | inr e ↦
          let first = slab_alloc-full m b i (ground arith) in
          let (m1, g1, run, i1, none_sent, same, pool) = drain_active m b i in
          let start : alloc_active class h m ≡ slab_alloc b m1 =
            bind-some (slab_alloc b) _ m first ∙ bind-some (slab_drain_remote b) _ m run in
          elim (Bool-cases (ltb 0 (room m1.nodes g1 b))) [
            | inl e' ↦
                let (slot, g', m', run', after, given, pool', _, _) =
                  slab_alloc-room m1 b i1 (ground arith) in
                inl (
                  slot,
                  g',
                  m',
                  start ∙ run',
                  after,
                  record {
                    fresh = rw (same b) at (given.fresh);
                    taken = given.taken ∙ ap (λ (xs : List ℕ). slot ∷ xs) (same b);
                    rest = λ a ne. given.rest a ne ∙ same a;
                  },
                  pool' ∙ pool,
                )
            | inr e' ↦ inr (
              ground arith,
              g1,
              m1,
              start ∙ slab_alloc-full m1 b i1 (ground arith),
              i1,
              ground arith,
              none_sent,
              same,
              pool,
            )
          ]
    ]
