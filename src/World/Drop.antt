-- ===== src/World/Drop.antt =====
-- The drop of a heap (src/heap.rs) among the heaps of all threads: the rounds over its classes.
use clmalloc.Base.{
  ℕ, zero, suc, true, false, ◌+◌, ◌≤◌, ◌<◌, ◌≡◌, ◌≢◌, ◌∙◌, inl, inr, Option, some, sym, ap, refl,
  List, [], length, arith, ◌==◌, Bool-cases,
}
use clmalloc.Base.Fun.{update, update_same, update_self, update_ne, update-update}
use clmalloc.SizeClass.{num_classes}
use clmalloc.Slab.Links.{count}
use clmalloc.Pool.State.{Machine, slab_cache_max}
use clmalloc.Heap.State.{Heap}
use clmalloc.Heap.Free.{drop_loop, drop_heap}
use clmalloc.Heap.Bin.{Ledger, Kept}
use clmalloc.Heap.Bin.Exit.{Leaving}
use clmalloc.Heap.Bin.Exit.Class.{drop_loop-Leaving}
use clmalloc.Heap.Bin.Class.{IsClass}
use clmalloc.World.{IsWorld, Lists, no_slabs, held, IsWorld-IsClass, rest_of}
use clmalloc.World.Step.{put, World-step}
use clmalloc.World.Alloc.{of_class}

abbrev pub size : Lists → ℕ
size l = length l.active + length l.partial + length l.full

-- The slabs of `rounds` classes, from `class` on.
unfoldable pub slabs_from : ℕ → ℕ → (ℕ → Lists) → ℕ
slabs_from zero class l = 0
slabs_from (suc rounds) class l = size (l class) + slabs_from rounds (class + 1) l

slabs_from-later :
    (rounds class from : ℕ) (l : ℕ → Lists)
    → class < from
    → slabs_from rounds from (update l class no_slabs) ≡ slabs_from rounds from l
unfolding slabs_from
slabs_from-later zero class from l below = refl
slabs_from-later (suc rounds) class from l below =
    let apart : (from == class) ≡ false = ground arith in
    rw (apart, slabs_from-later rounds class (from + 1) l (omega arith)) refl

module _ {H : ℕ → Heap} {m : Machine} {g : Ledger} {L : ℕ → ℕ → Lists} {Q : ℕ → List ℕ}
    (s : IsWorld H m g L Q) (fuel rounds i class spare : ℕ) (known : class < num_classes) where
  Leaving-start :
      m.pool.slab_cache_len + size (L i class) + spare ≤ slab_cache_max
      → Leaving
          (rest_of m g L Q i class spare)
          (H i)
          class
          m
          g
          (L i class).active
          []
          (L i class).partial
          (L i class).full
          (Q class)
  Leaving-start room =
      let c = IsWorld-IsClass s i class spare known in
      record {
        bin = c.bin;
        waiting = c.waiting;
        apart = c.apart;
        others = c.others;
        queue = c.queue;
        cache = omega (arith, room);
      }

  round :
      m.pool.slab_cache_len + size (L i class) + spare ≤ slab_cache_max
      → length (L i class).full < fuel
      → length (L i class).partial < fuel
      → (h1 : Heap) × (m1 : Machine) × (g1 : Ledger) × (xs : List ℕ) × (drop_loop fuel
            (suc rounds)
            class
            (H i)
            m
          ≡ drop_loop fuel rounds (class + 1) h1 m1)
        × IsWorld (update H i h1) m1 g1 (put L i class no_slabs) (update Q class xs)
        × Kept (H i) h1 class g g1 (of_class L Q i class) (λ a. count a xs)
        × (m1.pool.slab_cache_len + spare ≤ slab_cache_max)
  round room long enough =
      let (h1, m1, g1, xs, run, t, k) =
        drop_loop-Leaving fuel rounds class (H i) m g _ _ _ (Q class) (Leaving-start room) long
          enough in
      let c : IsClass (rest_of m g L Q i class spare) h1 class m1 g1 [] [] [] xs = record {
        bin = t.bin;
        waiting = t.waiting;
        apart = t.apart;
        others = t.others;
        queue = t.queue;
      } in
      (
        h1,
        m1,
        g1,
        xs,
        run,
        World-step s i class spare h1 m1 g1 no_slabs xs known c (k.same_id ∙ s.named i) k.others,
        k,
        omega (arith, t.cache),
      )

-- What the rounds from `class` on do: the heap has no slab of these classes left. Each of them waits for
-- adoption, or had no slot allocated; no slot changes hands.
pub record Emptied (l l' : ℕ → Lists) (Q Q' : ℕ → List ℕ) (g g' : Ledger) (class : ℕ) : Type 0 where
  pub gone : (c : ℕ) → class ≤ c → c < num_classes → l' c ≡ no_slabs
  pub earlier : (c : ℕ) → c < class → (l' c ≡ l c) × (Q' c ≡ Q c)
  pub outs : (a : ℕ) → (g' a).outs ≡ (g a).outs
  pub fewer :
      (c a : ℕ) → class ≤ c → c < num_classes → count a (Q' c) ≤ held (l c) a + count a (Q c)
  pub released :
      (c a : ℕ)
      → class ≤ c
      → c < num_classes
      → 0 < held (l c) a + count a (Q c)
      → count a (Q' c) ≡ 0
      → (g a).outs ≡ []

-- A round, then the others.
Emptied-step :
    {l l' : ℕ → Lists} {Q Q' : ℕ → List ℕ} {g g1 g' : Ledger} {class : ℕ} (xs : List ℕ)
    {h h1 : Heap}
    → Kept h h1 class g g1 (λ a. held (l class) a + count a (Q class)) (λ a. count a xs)
    → Emptied (update l class no_slabs) l' (update Q class xs) Q' g1 g' (class + 1)
    → Emptied l l' Q Q' g g' class
Emptied-step {l} {l'} {Q} {Q'} {g} {g1} {g'} {class} xs k e = record {
  gone = λ c from known. elim (Bool-cases (c == class)) [
    | inl z ↦
        let same : c ≡ class = ground arith in
        rw same ((e.earlier class (omega arith)).0 ∙ update_self l class no_slabs)
    | inr z ↦ e.gone c (ground arith) known
  ];
  earlier = λ c below.
      let ne : c ≢ class = λ z. omega arith in
      let (lists, queues) = e.earlier c (omega arith) in
      (lists ∙ update_ne l class c no_slabs ne, queues ∙ update_ne Q class c xs ne);
  outs = λ a. e.outs a ∙ k.outs a;
  fewer = λ c a from known. elim (Bool-cases (c == class)) [
    | inl z ↦ let same : c ≡ class = ground arith in rw (same, waiting) (k.fewer a)
    | inr z ↦ rw z at (e.fewer c a (ground arith) known)
  ];
  released = λ c a from known has none. elim (Bool-cases (c == class)) [
    | inl z ↦
        let same : c ≡ class = ground arith in
        k.released a (rw same at has) (rw (same, waiting) at none)
    | inr z ↦
        let later : class + 1 ≤ c = ground arith in
        sym (k.outs a) ∙ e.released c a later known (rw z (has)) none
  ];
}
  where
    waiting : Q' class ≡ xs
    waiting = (e.earlier class (omega arith)).1 ∙ update_self Q class xs

-- What a round comes to, for a heap `h` with the lists `l`.
abbrev Rounded :
    Option (Heap × Machine)
    → (ℕ → Heap)
    → (ℕ → ℕ → Lists)
    → ℕ
    → ℕ
    → ℕ
    → ℕ
    → ℕ
    → Heap
    → Ledger
    → (ℕ → Lists)
    → (ℕ → List ℕ)
    → Type 0
Rounded run H L fuel rounds i class spare h g l Q =
    (h1 : Heap) × (m1 : Machine) × (g1 : Ledger) × (xs : List ℕ) × (run
      ≡ drop_loop fuel rounds (class + 1) h1 m1)
    × IsWorld (update H i h1) m1 g1 (update L i (update l class no_slabs)) (update Q class xs)
    × Kept h h1 class g g1 (λ a. held (l class) a + count a (Q class)) (λ a. count a xs)
    × (m1.pool.slab_cache_len + spare ≤ slab_cache_max)

-- The heap and its lists stand at the place where they were put last.
Rounded-at :
    (H : ℕ → Heap) (L : ℕ → ℕ → Lists) (fuel rounds i class spare : ℕ) (h : Heap) (m : Machine)
    (g : Ledger) (l : ℕ → Lists) (Q : ℕ → List ℕ)
    → (h1 : Heap) × (m1 : Machine) × (g1 : Ledger) × (xs : List ℕ) × (drop_loop fuel
          (suc rounds)
          class
          (update H i h i)
          m
        ≡ drop_loop fuel rounds (class + 1) h1 m1)
      × IsWorld
          (update (update H i h) i h1)
          m1
          g1
          (put (update L i l) i class no_slabs)
          (update Q class xs)
      × Kept (update H i h i) h1 class g g1 (of_class (update L i l) Q i class) (λ a. count a xs)
      × (m1.pool.slab_cache_len + spare ≤ slab_cache_max)
    → Rounded (drop_loop fuel (suc rounds) class h m) H L fuel rounds i class spare h g l Q
Rounded-at H L fuel rounds i class spare h m g l Q (h1, m1, g1, xs, run, s1, k, left) = (
  h1,
  m1,
  g1,
  xs,
  ap (λ (q : Heap). drop_loop fuel (suc rounds) class q m) (sym here) ∙ run,
  rw (self, update-update H i h h1, update-update L i l (update l class no_slabs)) at s1,
  rw (self, of_class, held) at k,
  left,
)
  where
    self : (i == i) ≡ true
    self = ground arith

    here : update H i h i ≡ h
    here = update_self H i h

round_at :
    (H : ℕ → Heap) (L : ℕ → ℕ → Lists) (fuel rounds i class spare : ℕ) (h : Heap) (m : Machine)
    (g : Ledger) (l : ℕ → Lists) (Q : ℕ → List ℕ)
    → IsWorld (update H i h) m g (update L i l) Q
    → class < num_classes
    → m.pool.slab_cache_len + size (l class) + spare ≤ slab_cache_max
    → length (l class).full < fuel
    → length (l class).partial < fuel
    → Rounded (drop_loop fuel (suc rounds) class h m) H L fuel rounds i class spare h g l Q
round_at H L fuel rounds i class spare h m g l Q s known room long enough =
    let here : update H i h i ≡ h = update_self H i h in
    let lists : update L i l i ≡ l = update_self L i l in
    let room' : m.pool.slab_cache_len + size (update L i l i class) + spare ≤ slab_cache_max =
      omega (arith, room, ap (λ (q : ℕ → Lists). size (q class)) lists) in
    let long' : length (update L i l i class).full < fuel =
      omega (arith, long, ap (λ (q : ℕ → Lists). length (q class).full) lists) in
    let enough' : length (update L i l i class).partial < fuel =
      omega (arith, enough, ap (λ (q : ℕ → Lists). length (q class).partial) lists) in
    Rounded-at H L fuel rounds i class spare h m g l Q
      (round s fuel rounds i class spare known room' long' enough')

-- The rounds that are left, for a heap `h` with the lists `l`.
drop_rounds :
    (H : ℕ → Heap) (L : ℕ → ℕ → Lists) (fuel rounds i class : ℕ) (h : Heap) (m : Machine)
    (g : Ledger) (l : ℕ → Lists) (Q : ℕ → List ℕ)
    → IsWorld (update H i h) m g (update L i l) Q
    → class + rounds ≡ num_classes
    → m.pool.slab_cache_len + slabs_from rounds class l ≤ slab_cache_max
    → ((c : ℕ) → class ≤ c → c < num_classes → length (l c).full < fuel)
    → ((c : ℕ) → class ≤ c → c < num_classes → length (l c).partial < fuel)
    → (h' : Heap) × (m' : Machine) × (g' : Ledger) × (l' : ℕ → Lists) × (Q' : ℕ → List ℕ)
      × (drop_loop fuel rounds class h m ≡ some (h', m'))
      × IsWorld (update H i h') m' g' (update L i l') Q'
      × Emptied l l' Q Q' g g' class
unfolding drop_loop slabs_from
drop_rounds H L fuel zero i class h m g l Q s all room long enough = (
  h,
  m,
  g,
  l,
  Q,
  refl,
  s,
  record {
    gone = λ c from known. absurd (omega arith);
    earlier = λ c below. (refl, refl);
    outs = λ a. refl;
    fewer = λ c a from known. absurd (omega arith);
    released = λ c a from known has none. absurd (omega arith);
  },
)
drop_rounds H L fuel (suc rounds) i class h m g l Q s all room long enough =
    let known : class < num_classes = omega arith in
    let (h1, m1, g1, xs, run, s1, k, room1) =
      round_at H L fuel rounds i class (slabs_from rounds (class + 1) l) h m g l Q s known
        (omega (arith, room)) (long class (omega arith) known) (enough class (omega arith) known) in
    let l1 = update l class no_slabs in
    let apart : (c : ℕ) → class + 1 ≤ c → (c == class) ≡ false = λ c from. ground arith in
    let (h', m', g', l', Q', run', s', e) =
      drop_rounds H L fuel rounds i (class + 1) h1 m1 g1 l1 (update Q class xs) s1 (omega arith)
        (omega (arith, room1, slabs_from-later rounds class (class + 1) l (omega arith)))
        (λ c from ok. rw (apart c from) (long c (omega arith) ok))
        (λ c from ok. rw (apart c from) (enough c (omega arith) ok)) in
    (h', m', g', l', Q', run ∙ run', s', Emptied-step xs k e)

-- The drop of heap `i`, with fuel for its lists and a place in the pool's cache for each of its slabs, of
-- which there are 512 at most then; a full cache is not covered. It ends, and the heap has no slab of any class left. Each slab that it had waits for adoption in the list of
-- its class, or had no slot allocated; no slot changes hands, and the slabs of all other heaps and those that
-- wait stay well-formed, each in one place.
pub drop_heap-Emptied :
    {H : ℕ → Heap} {m : Machine} {g : Ledger} {L : ℕ → ℕ → Lists} {Q : ℕ → List ℕ}
    → IsWorld H m g L Q
    → (fuel i : ℕ) → m.pool.slab_cache_len + slabs_from num_classes 0 (L i) ≤ slab_cache_max
    → ((c : ℕ) → c < num_classes → length (L i c).full < fuel)
    → ((c : ℕ) → c < num_classes → length (L i c).partial < fuel)
    → (h' : Heap) × (m' : Machine) × (g' : Ledger) × (l' : ℕ → Lists) × (Q' : ℕ → List ℕ)
      × (drop_heap fuel (H i) m ≡ some (h', m'))
      × IsWorld (update H i h') m' g' (update L i l') Q'
      × Emptied (L i) l' Q Q' g g' 0
unfolding drop_heap
drop_heap-Emptied {H} {m} {g} {L} {Q} s fuel i room long enough =
    drop_rounds H L fuel num_classes i 0 (H i) m g (L i) Q
      (rw (sym (update_same H i), sym (update_same L i)) at s) (omega arith) room
      (λ c from ok. long c ok) (λ c from ok. enough c ok)
