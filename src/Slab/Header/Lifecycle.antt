-- ===== src/Slab/Header/Lifecycle.antt =====
-- `drain_remote` takes over every remotely freed slot, and `is_fully_free` tells a slab with no slot
-- out.
use mathlib.Core.List.{reverse_aux}
use clmalloc.Base.{
  ℕ, zero, suc, ◌+◌, ◌^◌, ◌≤◌, ◌<◌, ◌≡◌, ap, refl, List, [], ◌∷◌, arith, ◌==◌, length, true, false,
}
use clmalloc.Slab.Links.{Words, null, count, Chain}
use clmalloc.Slab.FreeList.{SlotFreeList, push}
use clmalloc.Slab.FreeList.Laws.{Holds, push-cons, push-keeps}
use clmalloc.Slab.Header.{SlabHeader, u16, drain_loop, drain_remote, is_fully_free}
use clmalloc.Slab.Header.Region.{IsSlab}

count-reverse_aux : (a : ℕ) (xs ys : List ℕ) → count a (reverse_aux xs ys) ≡ count a xs + count a ys
count-reverse_aux a [] ys = omega arith
count-reverse_aux a (x ∷ xs) ys = omega (arith, count-reverse_aux a xs (x ∷ ys))

length-reverse_aux : (xs ys : List ℕ) → length (reverse_aux xs ys) ≡ length xs + length ys
length-reverse_aux [] ys = omega arith
length-reverse_aux (x ∷ xs) ys = omega (arith, length-reverse_aux xs (x ∷ ys))

-- What the loop leaves when it moves the chain `rs` onto the list of `xs`.
record Drained (start : ℕ) (rs xs : List ℕ) (r : ℕ × Words × SlotFreeList) : Type 0 where
  number : r.0 ≡ start + length rs
  held : Holds r.1 r.2 (reverse_aux rs xs)

drain_loop-Drained :
    (fuel : ℕ) (w : Words) (l : SlotFreeList) (start cursor : ℕ) (rs xs : List ℕ)
    → Chain w cursor rs
    → Holds w l xs
    → ((a : ℕ) → count a rs + count a xs ≤ 1)
    → length rs ≤ fuel
    → start + length rs < 2 ^ 16
    → length xs + length rs < 2 ^ 16
    → Drained start rs xs (drain_loop fuel w l start cursor)
unfolding drain_loop
drain_loop-Drained zero w l start cursor [] xs c h once enough small fits = record {
  number = omega arith;
  held = h;
}
drain_loop-Drained zero w l start cursor (r ∷ rs) xs c h once enough small fits =
    absurd (omega arith)
drain_loop-Drained (suc fuel) w l start cursor [] xs c h once enough small fits =
    rw c (record { number = omega arith; held = h })
drain_loop-Drained (suc fuel) w l start cursor (r ∷ rs) xs c h once enough small fits =
    let (at, some_slot, rest) = c in
    let alone : (r == null) ≡ false = ground arith in
    let next_start : u16 (start + 1) ≡ start + 1 = omega arith in
    let ih =
      drain_loop-Drained fuel (push w l r).0 (push w l r).1 (start + 1) (w r) rs (r ∷ xs)
        (push-keeps w l r (w r) rs rest (ground (arith, once r)))
        (push-cons w l r xs h some_slot (ground (arith, once r)) (omega arith))
        (λ a. omega (arith, once a)) (omega arith) (omega arith) (omega arith) in
    rw (at, alone, next_start) (record { number = omega (arith, ih.number); held = ih.held })

-- Draining moves all remotely freed slots to the free list and counts them; none stays behind.
pub drain_remote-IsSlab :
    {base : ℕ} {w : Words} {h : SlabHeader} {frees remotes outs : List ℕ}
    → IsSlab base w h frees remotes outs
    → ((drain_remote w h).0 ≡ length remotes)
      × IsSlab base (drain_remote w h).1 (drain_remote w h).2 (reverse_aux remotes frees) [] outs
unfolding drain_remote
drain_remote-IsSlab {w} {h} {frees} {remotes} {outs} s =
    let d =
      drain_loop-Drained h.slot_count w h.«local» 0 h.remote remotes frees s.sent s.held
        (λ a. omega (arith, s.once a)) (omega (arith, s.counted))
        (omega (arith, s.counted, s.shape.few)) (omega (arith, s.counted, s.shape.few)) in
    (
      omega (arith, d.number),
      record {
        shape = s.shape;
        held = d.held;
        sent = refl;
        once = λ a. omega (arith, s.once a, count-reverse_aux a remotes frees);
        carved = λ a p. s.carved a (omega (arith, count-reverse_aux a remotes frees));
        counted = omega (arith, s.counted, length-reverse_aux remotes frees);
        cursor = s.cursor;
      },
    )

length_zero : (xs : List ℕ) → length xs ≡ 0 → xs ≡ []
length_zero [] h = refl
length_zero (x ∷ xs) h = absurd (omega arith)

-- `is_fully_free` answers yes exactly when no slot is allocated or waits on the remote stack.
pub is_fully_free_lem :
    {base : ℕ} {w : Words} {h : SlabHeader} {frees remotes outs : List ℕ}
    → IsSlab base w h frees remotes outs
    → (is_fully_free h ≡ true → (remotes ≡ []) × (outs ≡ []))
      × (remotes ≡ [] → outs ≡ [] → is_fully_free h ≡ true)
is_fully_free_lem {h} {frees} {remotes} {outs} s = (
  λ e. (
    length_zero remotes (ground (arith, s.held.counted, s.counted, s.shape.few)),
    length_zero outs (ground (arith, s.held.counted, s.counted, s.shape.few)),
  ),
  λ r o. ground (arith, s.held.counted, s.counted, s.shape.few, ap length r, ap length o),
)
