-- ===== src/Heap/Bin/Moves.antt =====
-- How a slab moves between the active place, the partial list and the full list.
pub mod Partial
pub mod Remote
use clmalloc.Base.{
  ℕ, false, if◌then◌else◌, ◌+◌, ◌*◌, ◌≤◌, ◌<◌, ◌≡◌, ◌≢◌, ◌∙◌, ap, sym, refl, inl, inr, some, List,
  [], ◌∷◌, length, arith, ◌==◌, Bool-cases,
}
use clmalloc.Base.Fun.{update}
use clmalloc.SizeClass.{num_classes}
use clmalloc.SizeClass.Align.{Multiple}
use clmalloc.Slab.Links.{Words, null, count, write_next}
use clmalloc.Slab.Header.{SlabHeader, slab_size, head_of}
use clmalloc.Slab.Header.Frame.{SameOutside}
use clmalloc.Slab.Header.Ops.Remove.{remove, count-remove}
use clmalloc.Slab.Queue.{
  Nodes, next_link, prev_link, slab_list_push, slab_list_pop, slab_list_remove,
}
use clmalloc.Slab.Queue.Linked.{IsQueue, Linked-frame}
use clmalloc.Slab.Queue.Laws.{push-IsQueue, pop-IsQueue}
use clmalloc.Slab.Queue.Removal.{remove-IsQueue}
use clmalloc.Slab.Queue.Frame.{push-frame, pop-frame, remove-frame, push-cell, pop-cell}
use clmalloc.Slab.Queue.Apart.{push-apart, pop-apart, remove-apart, remove-heads}
use clmalloc.Heap.Bin.Rest.{
  Untouched-step, Untouched-bin, Untouched-links, not_beside, write_next-SameOutside,
}
use clmalloc.Slab.Queue.Bodies.{SameBodies, push-SameBodies, pop-SameBodies, remove-SameBodies}
use clmalloc.Heap.State.{Heap, full_cell, partial_cell, set_bin}
use clmalloc.Heap.Bin.{Beside, Slots, Ledger, SlabIs, room, IsStore, Active, owned, IsBin}
use clmalloc.Heap.Bin.Store.{put_header, IsStore-sub, IsStore-links, IsStore-page, IsStore-write}

pub IsQueue-write :
    (n : Nodes) (c b : ℕ) (hd : SlabHeader) (xs : List ℕ)
    → IsQueue n c xs
    → hd.next_link ≡ next_link n b
    → hd.prev_link ≡ prev_link n b
    → IsQueue (put_header n b hd) c xs
IsQueue-write n c b hd xs q next prev = record {
  links =
      Linked-frame n (put_header n b hd) (head_of c) (n.cell c) xs q.links (λ a mem. ground arith);
  once = q.once;
}

pub room-same : (n n' : Nodes) (g : Ledger) (a : ℕ) → SameBodies n n' → room n' g a ≡ room n g a
room-same n n' g a same = ap (λ (hd : SlabHeader). length (g a).frees + hd.bump_remaining) (same a)

-- A slab of a list is no slab outside it.
outside : (xs : List ℕ) (a b : ℕ) → count a xs ≡ 0 → 0 < count b xs → a ≢ b
outside xs a b out has e =
    let e' : count a xs ≡ count b xs = ap (λ (t : ℕ). count t xs) e in omega (arith, e')

-- What an operation on the slots of `b` must show for the slab to stay in its place.
pub record Rewrites (id : ℕ) (w v : Words) (n : Nodes) (b : ℕ) (hd : SlabHeader) (t : Slots)
    : Type 0 where
  pub far : SameOutside b w v
  pub slab : SlabIs b v hd t
  pub mine : hd.heap_id ≡ id
  pub index : hd.size_class_index ≡ (n.header b).size_class_index
  pub next : hd.next_link ≡ next_link n b
  pub prev : hd.prev_link ≡ prev_link n b

module _ {f : Beside} {h : Heap} {class : ℕ} {w : Words} {n : Nodes} {g : Ledger}
    {partial full : List ℕ} where
  -- The links of no list change, and the slab is on neither list.
  pub write_active :
      (b : ℕ) (v : Words) (hd : SlabHeader) (t : Slots)
      → IsBin f h class w n g (b ∷ []) [] partial full
      → Rewrites h.id w v n b hd t
      → IsBin f h class v (put_header n b hd) (update g b t) (b ∷ []) [] partial full
  write_active b v hd t i r = record {
    store =
        IsStore-write i.store b v hd t (i.store.aligned b (ground arith)) r.far r.slab r.mine
          (r.index ∙ i.store.indexed b (ground arith));
    current = i.current;
    partials = IsQueue-write n (partial_cell h class) b hd partial i.partials r.next r.prev;
    fulls = IsQueue-write n (full_cell h class) b hd full i.fulls r.next r.prev;
    once = i.once;
    ready = λ a mem.
        let apart : (a == b) ≡ false = ground (arith, i.once a) in rw apart (i.ready a mem);
    spent = λ a mem.
        let apart : (a == b) ≡ false = ground (arith, i.once a) in rw apart (i.spent a mem);
    beside =
        Untouched-step i.beside b v (put_header n b hd) (update g b t) _
          (not_beside i.beside b (ground arith)) (i.store.aligned b (ground arith)) r.far
          (λ a ne. omega arith) (λ a real ne out. ground arith) (λ c ne ne'. refl)
          (λ a ne. ground arith);
  }

  pub unload_active :
      (b : ℕ)
      → IsBin f h class w n g (b ∷ []) [] partial full
      → IsBin f (set_bin h class null) class w n g [] (b ∷ []) partial full
  unload_active b i = record {
    store = IsStore-sub i.store (owned [] (b ∷ []) partial full) (λ a. omega arith);
    current = ground arith;
    partials = i.partials;
    fulls = i.fulls;
    once = λ a. omega (arith, i.once a);
    ready = i.ready;
    spent = i.spent;
    beside = Untouched-bin i.beside null (owned [] (b ∷ []) partial full) (λ a. omega arith);
  }

  pub activate :
      (b : ℕ)
      → b ≢ null
      → IsBin f h class w n g [] (b ∷ []) partial full
      → IsBin f (set_bin h class b) class w n g (b ∷ []) [] partial full
  activate b ne i = record {
    store = IsStore-sub i.store (owned (b ∷ []) [] partial full) (λ a. omega arith);
    current = ground arith;
    partials = i.partials;
    fulls = i.fulls;
    once = λ a. omega (arith, i.once a);
    ready = i.ready;
    spent = i.spent;
    beside = Untouched-bin i.beside b (owned (b ∷ []) [] partial full) (λ a. omega arith);
  }

module _ {f : Beside} {h : Heap} {class : ℕ} {w : Words} {n : Nodes} {g : Ledger}
    {active partial full : List ℕ} where
  pub push_full :
      (b : ℕ)
      → b ≢ null
      → IsBin f h class w n g active (b ∷ []) partial full
      → room n g b ≡ 0
      → IsBin f h class w (slab_list_push n (full_cell h class) b) g active [] partial (b ∷ full)
  push_full b ne i none_left =
      let n' = slab_list_push n (full_cell h class) b in
      let same = push-SameBodies n (full_cell h class) b in
      record {
        store =
            IsStore-links
              (IsStore-sub i.store (owned active [] partial (b ∷ full)) (λ a. omega arith)) n' same;
        current = i.current;
        partials =
            push-frame n (full_cell h class) b (partial_cell h class) full partial i.fulls
              i.partials (omega arith) (ground (arith, i.once b)) (λ a. omega (arith, i.once a));
        fulls = push-IsQueue n (full_cell h class) b full i.fulls ne (ground (arith, i.once b));
        once = λ a. omega (arith, i.once a);
        ready = λ a mem. omega (arith, room-same n n' g a same, i.ready a mem);
        spent = λ a mem. elim (Bool-cases (a == b)) [
          | inl e ↦ let this : a ≡ b = ground arith in rw this (room-same n n' g b same ∙ none_left)
          | inr e ↦ room-same n n' g a same ∙ i.spent a (ground arith)
        ];
        beside =
            Untouched-links i.beside n' (owned active [] partial (b ∷ full)) (λ a. omega arith)
              (λ a real out.
                push-apart n (full_cell h class) b a full i.fulls real
                  (outside (b ∷ []) a b (omega arith) (ground arith)) (omega arith))
              (λ c ne ne'. push-cell n (full_cell h class) b c (ground arith));
      }

  pub push_partial :
      (b : ℕ)
      → b ≢ null
      → IsBin f h class w n g active (b ∷ []) partial full
      → 0 < room n g b
      → IsBin f h class w (slab_list_push n (partial_cell h class) b) g active [] (b ∷ partial) full
  push_partial b ne i some_left =
      let n' = slab_list_push n (partial_cell h class) b in
      let same = push-SameBodies n (partial_cell h class) b in
      record {
        store =
            IsStore-links
              (IsStore-sub i.store (owned active [] (b ∷ partial) full) (λ a. omega arith)) n' same;
        current = i.current;
        partials =
            push-IsQueue n (partial_cell h class) b partial i.partials ne
              (ground (arith, i.once b));
        fulls =
            push-frame n (partial_cell h class) b (full_cell h class) partial full i.partials
              i.fulls (omega arith) (ground (arith, i.once b)) (λ a. omega (arith, i.once a));
        once = λ a. omega (arith, i.once a);
        ready = λ a mem. elim (Bool-cases (a == b)) [
          | inl e ↦
              let this : a ≡ b = ground arith in rw this (omega (arith, room-same n n' g b same))
          | inr e ↦ omega (arith, room-same n n' g a same, i.ready a (ground arith))
        ];
        spent = λ a mem. room-same n n' g a same ∙ i.spent a mem;
        beside =
            Untouched-links i.beside n' (owned active [] (b ∷ partial) full) (λ a. omega arith)
              (λ a real out.
                push-apart n (partial_cell h class) b a partial i.partials real
                  (outside (b ∷ []) a b (omega arith) (ground arith)) (omega arith))
              (λ c ne ne'. push-cell n (partial_cell h class) b c (ground arith));
      }

  pub pop_partial :
      (b : ℕ)
      → IsBin f h class w n g active [] (b ∷ partial) full
      → ((slab_list_pop n (partial_cell h class)).0 ≡ some b)
        × (b ≢ null)
        × (0 < room (slab_list_pop n (partial_cell h class)).1 g b)
        × IsBin f h class w
            (slab_list_pop n (partial_cell h class)).1
            g
            active
            (b ∷ [])
            partial
            full
  pop_partial b i =
      let n' = (slab_list_pop n (partial_cell h class)).1 in
      let same = pop-SameBodies n (partial_cell h class) in
      let (got, rest, _, _) = pop-IsQueue n (partial_cell h class) b partial i.partials in
      (
        got,
        i.partials.links.1,
        omega (arith, room-same n n' g b same, i.ready b (ground arith)),
        record {
          store =
              IsStore-links
                (IsStore-sub i.store (owned active (b ∷ []) partial full) (λ a. omega arith)) n'
                same;
          current = i.current;
          partials = rest;
          fulls =
              pop-frame n (partial_cell h class) (full_cell h class) b partial full i.partials
                i.fulls (omega arith) (λ a. omega (arith, i.once a));
          once = λ a. omega (arith, i.once a);
          ready = λ a mem. omega (arith, room-same n n' g a same, i.ready a (ground arith));
          spent = λ a mem. room-same n n' g a same ∙ i.spent a mem;
          beside =
              Untouched-links i.beside n' (owned active (b ∷ []) partial full) (λ a. omega arith)
                (λ a real out.
                  pop-apart n (partial_cell h class) b a partial i.partials real (omega arith))
                (λ c ne ne'. pop-cell n (partial_cell h class) c ne');
        },
      )

  -- A slab of the full list is rewritten, then removed from the list.
  pub take_full :
      (b : ℕ) (v : Words) (hd : SlabHeader) (t : Slots)
      → IsBin f h class w n g active [] partial full
      → 0 < count b full
      → Rewrites h.id w v n b hd t
      → IsBin f h class v
          (slab_list_remove (put_header n b hd) b)
          (update g b t)
          active
          (b ∷ [])
          partial
          (remove b full)
  take_full b v hd t i mem r =
      let n1 = put_header n b hd in
      let n' = slab_list_remove n1 b in
      let same = remove-SameBodies n1 b in
      let p1 = IsQueue-write n (partial_cell h class) b hd partial i.partials r.next r.prev in
      let f1 = IsQueue-write n (full_cell h class) b hd full i.fulls r.next r.prev in
      let less : (a : ℕ)
          → owned active (b ∷ []) partial (remove b full) a ≤ owned active [] partial full a =
        λ a. omega (arith, count-remove b full a mem) in
      let s1 =
        IsStore-write i.store b v hd t (i.store.aligned b (omega arith)) r.far r.slab r.mine
          (r.index ∙ i.store.indexed b (omega arith)) in
      record {
        store =
            IsStore-links (IsStore-sub s1 (owned active (b ∷ []) partial (remove b full)) less) n'
              same;
        current = i.current;
        partials =
            remove-frame n1 (full_cell h class) (partial_cell h class) b full partial f1 p1
              (omega arith) mem (λ a. omega (arith, i.once a));
        fulls = (remove-IsQueue n1 (full_cell h class) b full f1 mem).0;
        once = λ a. omega (arith, i.once a, less a);
        ready = λ a has.
            let apart : (a == b) ≡ false = ground (arith, i.once a) in
            let kept : room n1 (update g b t) a ≡ room n g a = rw apart refl in
            omega (arith, room-same n1 n' (update g b t) a same, kept, i.ready a has);
        spent = λ a has.
            let apart : (a == b) ≡ false = ground (arith, i.once a, count-remove b full a mem) in
            let kept : room n1 (update g b t) a ≡ room n g a = rw apart refl in
            room-same n1 n' (update g b t) a same
            ∙ kept
            ∙ i.spent a (omega (arith, count-remove b full a mem));
        beside =
            let at = i.store.aligned b (omega arith) in
            let u1 =
              Untouched-step i.beside b v n1 (update g b t) _ (not_beside i.beside b (omega arith))
                at r.far (λ a ne. omega arith) (λ a real ne out. ground arith) (λ c ne ne'. refl)
                (λ a ne. ground arith) in
            Untouched-links u1 n' (owned active (b ∷ []) partial (remove b full)) less
              (λ a real out. remove-apart n1 (full_cell h class) b a full f1 mem real (omega arith))
              (λ c ne ne'. remove-heads n1 (full_cell h class) b c full f1 mem ne);
      }

  pub release :
      (b q : ℕ)
      → IsBin f h class w n g active (b ∷ []) partial full
      → IsBin f h class (write_next w b q) n g active [] partial full
  release b q i = record {
    store =
        IsStore-page (IsStore-sub i.store (owned active [] partial full) (λ a. omega arith)) b q
          (i.store.aligned b (ground arith));
    current = i.current;
    partials = i.partials;
    fulls = i.fulls;
    once = λ a. omega (arith, i.once a);
    ready = i.ready;
    spent = i.spent;
    beside =
        Untouched-step i.beside b (write_next w b q) n g (owned active [] partial full)
          (not_beside i.beside b (ground arith)) (i.store.aligned b (ground arith))
          (write_next-SameOutside w b q) (λ a ne. omega arith) (λ a real ne out. refl)
          (λ c ne ne'. refl) (λ a ne. refl);
  }
