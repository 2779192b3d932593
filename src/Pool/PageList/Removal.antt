-- ===== src/Pool/PageList/Removal.antt =====
-- `remove_if` keeps the pages that fail the test, in order.
use clmalloc.Base.{
  ℕ, zero, suc, ◌+◌, ◌-◌, ◌≤◌, ◌<◌, ◌≡◌, ◌≢◌, ◌∙◌, Bool, false, refl, List, [], ◌∷◌, arith, ◌==◌,
  length, Bool-cases, inl, inr,
}
use clmalloc.Slab.Links.{Words, null, count, Chain, Chain-update}
use clmalloc.Pool.PageList.{
  PageFreeList, Cursor, at_head, at_link, read_cursor, unlink, remove_loop, remove_if,
}
use clmalloc.Pool.PageList.Laws.{HasPages, keep, count-keep}

-- The page that the cursor stands at is none of the pages behind it.
abbrev Clear : Cursor → List ℕ → Type 0
Clear at_head xs = Unit
Clear (at_link p) xs = count p xs ≡ 0

abbrev Untouched : Cursor → ℕ → Type 0
Untouched at_head a = Unit
Untouched (at_link p) a = a ≢ p

abbrev SameHead : Cursor → PageFreeList → PageFreeList → Type 0
SameHead at_head l m = Unit
SameHead (at_link p) l m = m.head ≡ l.head

-- What a run of the loop leaves when it finds the pages `xs` behind the cursor and keeps `ys`.
record Removed (w : Words) (l : PageFreeList) (cursor : Cursor) (xs ys : List ℕ)
    (r : Words × PageFreeList) : Type 0 where
  chain : Chain r.0 (read_cursor r.0 r.1 cursor) ys
  number : r.1.len + length xs ≡ l.len + length ys
  frame : (a : ℕ) → count a xs ≡ 0 → Untouched cursor a → r.0 a ≡ w a
  same_head : SameHead cursor l r.1

unlink-Chain :
    (w : Words) (l : PageFreeList) (cursor : Cursor) (x : ℕ) (xs : List ℕ)
    → Chain w (read_cursor w l cursor) (x ∷ xs)
    → Clear cursor (x ∷ xs)
    → Chain
        (unlink w l cursor (w x)).0
        (read_cursor (unlink w l cursor (w x)).0 (unlink w l cursor (w x)).1 cursor)
        xs
unfolding unlink read_cursor
unlink-Chain w l at_head x xs c clear = c.2
unlink-Chain w l (at_link p) x xs c clear = ground (arith, Chain-update w p (w x) (w x) xs c.2)

unlink-rest :
    (w : Words) (l : PageFreeList) (cursor : Cursor) (v : ℕ)
    → 0 < l.len
    → ((unlink w l cursor v).1.len ≡ l.len - 1)
      × ((a : ℕ) → Untouched cursor a → (unlink w l cursor v).0 a ≡ w a)
      × SameHead cursor l (unlink w l cursor v).1
unfolding unlink
unlink-rest w l at_head v some_page = (ground arith, λ a u. refl, tt)
unlink-rest w l (at_link p) v some_page = (ground arith, λ a u. ground arith, refl)

SameHead-refl : (cursor : Cursor) (l : PageFreeList) → SameHead cursor l l
SameHead-refl at_head l = tt
SameHead-refl (at_link p) l = refl

SameHead-trans :
    (cursor : Cursor) (k l m : PageFreeList)
    → SameHead cursor k l
    → SameHead cursor l m
    → SameHead cursor k m
SameHead-trans at_head k l m a b = tt
SameHead-trans (at_link p) k l m a b = b ∙ a

Clear-tail : (cursor : Cursor) (x : ℕ) (xs : List ℕ) → Clear cursor (x ∷ xs) → Clear cursor xs
Clear-tail at_head x xs c = tt
Clear-tail (at_link p) x xs c = omega arith

-- When the page `x` stays, the place that points to it is not written.
kept-cursor :
    (w : Words) (l : PageFreeList) (cursor : Cursor) (x : ℕ) (xs ys : List ℕ)
    (r : Words × PageFreeList)
    → Clear cursor (x ∷ xs)
    → Removed w l (at_link x) xs ys r
    → (read_cursor r.0 r.1 cursor ≡ read_cursor w l cursor) × SameHead cursor l r.1
unfolding read_cursor
kept-cursor w l at_head x xs ys r clear s = (s.same_head, tt)
kept-cursor w l (at_link p) x xs ys r clear s =
    (s.frame p (omega arith) (ground arith), s.same_head)

remove_loop-Removed :
    (pred : ℕ → Bool) (fuel : ℕ) (w : Words) (l : PageFreeList) (cursor : Cursor) (xs : List ℕ)
    → Chain w (read_cursor w l cursor) xs
    → ((a : ℕ) → count a xs ≤ 1)
    → Clear cursor xs
    → length xs ≤ fuel
    → length xs ≤ l.len
    → Removed w l cursor xs (keep pred xs) (remove_loop pred fuel w l cursor)
unfolding remove_loop read_cursor
remove_loop-Removed pred zero w l cursor [] c once clear enough room = record {
  chain = c;
  number = refl;
  frame = λ a h u. refl;
  same_head = SameHead-refl cursor l;
}
remove_loop-Removed pred zero w l cursor (x ∷ xs) c once clear enough room = absurd (omega arith)
remove_loop-Removed pred (suc fuel) w l cursor [] c once clear enough room =
    rw c (record {
      chain = c;
      number = refl;
      frame = λ a h u. refl;
      same_head = SameHead-refl cursor l;
    })
remove_loop-Removed pred (suc fuel) w l cursor (x ∷ xs) c once clear enough room =
    let (at, some_page, rest) = c in
    let page : (x == null) ≡ false = ground arith in
    elim (Bool-cases (pred x)) [
      | inl e ↦
          let (len, same, head) = unlink-rest w l cursor (w x) (omega arith) in
          let ih =
            remove_loop-Removed pred fuel (unlink w l cursor (w x)).0 (unlink w l cursor (w x)).1
              cursor xs (unlink-Chain w l cursor x xs c clear) (λ a. ground (arith, once a))
              (Clear-tail cursor x xs clear) (omega arith) (omega (arith, len)) in
          rw (at, page, e)
            (record {
              chain = ih.chain;
              number = omega (arith, ih.number, len);
              frame = λ a h u. ih.frame a (omega arith) u ∙ same a u;
              same_head = SameHead-trans cursor l _ _ head ih.same_head;
            })
      | inr e ↦
          let ih =
            remove_loop-Removed pred fuel w l (at_link x) xs rest (λ a. ground (arith, once a))
              (ground (arith, once x)) (omega arith) (omega arith) in
          let (read, head) =
            kept-cursor w l cursor x xs (keep pred xs) (remove_loop pred fuel w l (at_link x)) clear
              ih in
          rw (at, page, e)
            (record {
              chain = (read ∙ at, some_page, ih.chain);
              number = omega (arith, ih.number);
              frame = λ a h u. ih.frame a (omega arith) (ground arith);
              same_head = head;
            })
    ]

-- After `remove_if` the list holds exactly the pages that fail the test, in their order, and every
-- word outside the list is as before.
pub remove_if-HasPages :
    (pred : ℕ → Bool) (w : Words) (l : PageFreeList) (xs : List ℕ)
    → HasPages w l xs
    → HasPages (remove_if pred w l).0 (remove_if pred w l).1 (keep pred xs)
      × ((a : ℕ) → count a xs ≡ 0 → (remove_if pred w l).0 a ≡ w a)
unfolding remove_if read_cursor
remove_if-HasPages pred w l xs h =
    let r =
      remove_loop-Removed pred l.len w l at_head xs h.chain h.once tt (omega (arith, h.counted))
        (omega (arith, h.counted)) in
    (
      record {
        chain = r.chain;
        counted = omega (arith, r.number, h.counted);
        once = λ a. omega (arith, h.once a, count-keep pred a xs);
      },
      λ a n. r.frame a n tt,
    )
