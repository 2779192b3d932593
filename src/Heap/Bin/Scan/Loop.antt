-- ===== src/Heap/Bin/Scan/Loop.antt =====
-- The whole walk: each slab is drained and sorted, and the walk ends at the end of the list.
use mathlib.Core.List.{reverse_aux}
use clmalloc.Base.{
  ℕ, ◌⊎◌, zero, suc, true, false, ◌+◌, ◌<◌, ◌≡◌, ◌∙◌, ap, sym, refl, inl, inr, List, [], ◌∷◌, ◌++◌,
  length, arith, ◌==◌, ltb, if◌then◌else◌, Bool-cases,
}
use clmalloc.Slab.Links.{null}
use clmalloc.Slab.Header.{is_fully_free, free_count, has_pending_remote, drain_remote}
use clmalloc.Slab.Queue.Frame.{Linked-not_null}
use clmalloc.Pool.State.{Machine, Cmd, pure, ◌>>=◌, ◌>>◌, bind-some, bind_assoc}
use clmalloc.Heap.State.{Heap, header_at, get, slab_drain_remote}
use clmalloc.Heap.Alloc.{sort_scanned, scan_loop}
use clmalloc.Heap.Bin.{Beside, Ledger, SlabIs, owned, Kept-refl, Kept-trans}
use clmalloc.Heap.Bin.Lists.{first, count-append, step_over, next-first}
use clmalloc.Heap.Bin.Scan.{IsScan, Scanned, here, drain_remote-Rewrites, drained_slots}
use clmalloc.Heap.Bin.Scan.Found.{sorted}

-- One round of the walk, without its recursive call.
abbrev drain_if : Machine → ℕ → Cmd (Unit {0})
drain_if m b = if has_pending_remote (header_at m b) then slab_drain_remote b else pure tt

abbrev visit : ℕ → ℕ → Heap → Cmd Heap
visit class b h = do m ← get; drain_if m b; sort_scanned class b h

List-cases : (xs : List ℕ) → (xs ≡ []) ⊎ ((x : ℕ) × (more : List ℕ) × (xs ≡ x ∷ more))
List-cases [] = inl refl
List-cases (x ∷ xs) = inr (x, xs, refl)

reverse_aux-longer : (xs ys : List ℕ) → length (reverse_aux xs ys) ≡ length xs + length ys
reverse_aux-longer [] ys = omega arith
reverse_aux-longer (x ∷ xs) ys = omega (arith, reverse_aux-longer xs (x ∷ ys))

module _ {f : Beside} {h : Heap} {class : ℕ} {m : Machine} {g : Ledger}
    {active partial kept todo : List ℕ} (b : ℕ)
    (s : IsScan f h class m g active partial kept (b ∷ todo)) where
  slab_here : SlabIs b m.words (header_at m b) (g b)
  slab_here = s.bin.store.slabs b (omega (arith, here b kept todo))

  -- A slab without remote frees stays where it is.
  visit-quiet :
      (g b).remotes ≡ []
      → Scanned f (visit class b h m) h class g (owned active [] partial (kept ++ b ∷ todo)) todo
  unfolding sort_scanned
  visit-quiet none_sent =
      let i = slab_here in
      let sent : (header_at m b).remote ≡ null = rw none_sent at (i.sent) in
      let none_left = s.bin.spent b (here b kept todo) in
      let quiet : has_pending_remote (header_at m b) ≡ false = rw sent refl in
      let count_zero : free_count (header_at m b) ≡ 0 = omega (arith, i.held.counted) in
      let busy : is_fully_free (header_at m b) ≡ false =
        ground (arith, count_zero, i.shape.some_slots) in
      let none_free : ltb 0 (free_count (header_at m b)) ≡ false = ground (arith, count_zero) in
      let split = step_over b kept todo in
      (
        h,
        m,
        g,
        active,
        partial,
        kept ++ b ∷ [],
        rw (quiet, sort_scanned, busy, none_free) refl,
        record {
          bin = rw split at (s.bin);
          drained = λ a has. elim (Bool-cases (a == b)) [
            | inl e ↦ let this : a ≡ b = ground arith in rw this none_sent
            | inr e ↦ s.drained a (ground (arith, count-append a kept (b ∷ [])))
          ];
          found = s.found;
          able = s.able;
          queue = s.queue;
          cache = omega (arith, s.cache);
        },
        Kept-refl h class g _ _ (λ a. rw split refl),
      )

  visit-pending :
      (x : ℕ) (more : List ℕ)
      → (g b).remotes ≡ x ∷ more
      → Scanned f (visit class b h m) h class g (owned active [] partial (kept ++ b ∷ todo)) todo
  unfolding slab_drain_remote
  visit-pending x more some_sent =
      let i = slab_here in
      let sent = rw some_sent at (i.sent) in
      let pending : has_pending_remote (header_at m b) ≡ true = ground arith in
      let own_id = s.bin.store.mine b (omega (arith, here b kept todo)) in
      let freed : 0 < length (drained_slots (g b)).frees =
        omega (arith, reverse_aux-longer (g b).remotes (g b).frees, ap length some_sent) in
      let (h', m', g', active', partial', kept', run, after, change) =
        sorted b s (drain_remote m.words (header_at m b)).1 (drain_remote m.words (header_at m b)).2
          (drained_slots (g b)) (drain_remote-Rewrites m b (g b) i own_id) refl refl freed in
      (h', m', g', active', partial', kept', rw pending run, after, change)

  visit_lem :
      Scanned f (visit class b h m) h class g (owned active [] partial (kept ++ b ∷ todo)) todo
  visit_lem = elim (List-cases (g b).remotes) [
    | inl e ↦ visit-quiet e
    | inr (x, more, e) ↦ visit-pending x more e
  ]

-- With one round of fuel more than there are slabs left, the walk ends.
pub scan_loop_lem :
    {f : Beside} (fuel class : ℕ) (h : Heap) (m : Machine) (g : Ledger)
    (active partial kept todo : List ℕ)
    → IsScan f h class m g active partial kept todo
    → length todo < fuel
    → Scanned f
        (scan_loop fuel class (first todo) h m)
        h
        class
        g
        (owned active [] partial (kept ++ todo))
        []
unfolding scan_loop
scan_loop_lem {f} zero class h m g active partial kept todo s enough = absurd (omega arith)
scan_loop_lem {f} (suc fuel) class h m g active partial kept [] s enough =
    (h, m, g, active, partial, kept, refl, s, Kept-refl h class g _ _ (λ a. refl))
scan_loop_lem {f} (suc fuel) class h m g active partial kept (b ∷ todo) s enough =
    let some_slab : (b == null) ≡ false = ground (
      arith,
      Linked-not_null m.nodes _ _ b (kept ++ b ∷ todo) s.bin.fulls.links (here b kept todo),
    ) in
    let next = next-first m.nodes _ _ b kept todo s.bin.fulls.links in
    let (h1, m1, g1, active1, partial1, kept1, run, after, change) = visit_lem b s in
    let (h2, m2, g2, active2, partial2, kept2, run', after', change') =
      scan_loop_lem fuel class h1 m1 g1 active1 partial1 kept1 todo after (omega arith) in
    (
      h2,
      m2,
      g2,
      active2,
      partial2,
      kept2,
      rw (some_slab, scan_loop, next)
          (sym (
              bind_assoc (drain_if m b) (λ _. sort_scanned class b h)
                (scan_loop fuel class (first todo)) m)
            ∙ bind-some (visit class b h) (scan_loop fuel class (first todo)) m run
            ∙ run'),
      after',
      Kept-trans change change',
    )
