-- ===== src/Slab/Treiber/Interleave/Moves.antt =====
-- Each step but `take` keeps the invariant.
use clmalloc.Base.{ℕ, ◌+◌, ◌≡◌, ◌≢◌, ◌∙◌, refl, ap, sym, List, [], ◌∷◌, arith}
use clmalloc.Base.Fun.{update}
use clmalloc.Slab.Links.{null, count, Chain-update}
use clmalloc.Slab.Treiber.Interleave.{idle, loaded, linked, slot_of, Remote, IsOutside}
use clmalloc.Slab.Treiber.Interleave.Invariant.{
  IsWritten, IsRemote, count-null, Chain-null, IsWritten-update, updated,
}

module _ {s : Remote} {stack rest : List ℕ} (r : IsRemote s stack rest) where
  abbrev Result : Remote → Type 0
  Result t = (stack' : List ℕ) × (rest' : List ℕ) × IsRemote t stack' rest'

  outside-apart : (slot : ℕ) → IsOutside s slot → count slot stack + count slot rest ≡ 0
  outside-apart slot out = omega (arith, r.kept slot, out.returned)

  pub load-Result :
      (t slot : ℕ)
      → IsOutside s slot
      → Result (record s { pc = update s.pc t (loaded slot s.head) })
  load-Result t slot out = (
    stack,
    rest,
    record {
      stacked = r.stacked;
      taken = r.taken;
      once = r.once;
      apart =
          updated (λ p. count (slot_of p) stack + count (slot_of p) rest ≡ 0) s.pc t _
            (outside-apart slot out) (λ u ne. r.apart u);
      alone = λ u v ne e. ground (arith, r.alone u v, out.not_pushing u, out.not_pushing v);
      written = updated (IsWritten s.words) s.pc t _ out.not_null (λ u ne. r.written u);
      kept = r.kept;
    },
  )

  -- Another thread's slot is not the slot that thread `t` is pushing.
  others :
      (t slot : ℕ)
      → slot_of (s.pc t) ≡ slot
      → slot ≢ null
      → (u : ℕ) → u ≢ t
      → slot_of (s.pc u) ≢ slot
  others t slot at some_slot u ne e = some_slot (sym e ∙ r.alone u t ne (e ∙ sym at))

  pub link-Result :
      (t slot head : ℕ)
      → s.pc t ≡ loaded slot head
      → Result
          (record s { words = update s.words slot head; pc = update s.pc t (linked slot head) })
  link-Result t slot head at =
      let here : slot_of (s.pc t) ≡ slot = ap slot_of at in
      let some_slot : slot ≢ null = rw at at (r.written t) in
      let out : count slot stack + count slot rest ≡ 0 = rw here at (r.apart t) in
      (
        stack,
        rest,
        record {
          stacked = Chain-update s.words slot head s.head stack r.stacked (omega (arith, out));
          taken = Chain-update s.words slot head s.cursor rest r.taken (omega (arith, out));
          once = r.once;
          apart =
              updated (λ p. count (slot_of p) stack + count (slot_of p) rest ≡ 0) s.pc t _ out
                (λ u ne. r.apart u);
          alone = λ u v ne e.
              ground (
                arith,
                r.alone u v,
                others t slot here some_slot u,
                others t slot here some_slot v,
              );
          written =
              updated (IsWritten (update s.words slot head)) s.pc t _ (some_slot, ground arith)
                (λ u ne.
                  IsWritten-update s.words slot head (s.pc u) (r.written u)
                    (others t slot here some_slot u ne));
          kept = r.kept;
        },
      )

  pub retry-Result :
      (t slot head : ℕ)
      → s.pc t ≡ linked slot head
      → Result (record s { pc = update s.pc t (loaded slot s.head) })
  retry-Result t slot head at =
      let here : slot_of (s.pc t) ≡ slot = ap slot_of at in
      let (some_slot, _) = rw at at (r.written t) in
      let out : count slot stack + count slot rest ≡ 0 = rw here at (r.apart t) in
      (
        stack,
        rest,
        record {
          stacked = r.stacked;
          taken = r.taken;
          once = r.once;
          apart =
              updated (λ p. count (slot_of p) stack + count (slot_of p) rest ≡ 0) s.pc t _ out
                (λ u ne. r.apart u);
          alone = λ u v ne e.
              ground (
                arith,
                r.alone u v,
                others t slot here some_slot u,
                others t slot here some_slot v,
              );
          written = updated (IsWritten s.words) s.pc t _ some_slot (λ u ne. r.written u);
          kept = r.kept;
        },
      )

  pub exchange-Result :
      (t slot head : ℕ)
      → s.pc t ≡ linked slot head
      → s.head ≡ head
      → Result (record s { head = slot; pc = update s.pc t idle; pushed = slot ∷ s.pushed })
  exchange-Result t slot head at same =
      let here : slot_of (s.pc t) ≡ slot = ap slot_of at in
      let (some_slot, link_word) = rw at at (r.written t) in
      let out : count slot stack + count slot rest ≡ 0 = rw here at (r.apart t) in
      (
        slot ∷ stack,
        rest,
        record {
          stacked = ground (arith, r.stacked);
          taken = r.taken;
          once = λ a. ground (arith, r.once a);
          apart =
              updated (λ p. count (slot_of p) (slot ∷ stack) + count (slot_of p) rest ≡ 0) s.pc t _
                (ground (
                  arith,
                  count-null s.words s.head stack r.stacked,
                  count-null s.words s.cursor rest r.taken,
                ))
                (λ u ne. ground (arith, r.apart u, others t slot here some_slot u ne));
          alone = λ u v ne e. ground (arith, r.alone u v);
          written = updated (IsWritten s.words) s.pc t _ tt (λ u ne. r.written u);
          kept = λ a. ground (arith, r.kept a);
        },
      )

  pub swap-Result : s.cursor ≡ null → Result (record s { head = null; cursor = s.head })
  swap-Result free =
      let none_left : rest ≡ [] = Chain-null s.words rest (rw free at r.taken) in
      (
        [],
        stack,
        record {
          stacked = refl;
          taken = r.stacked;
          once = λ a. omega (arith, r.once a);
          apart = λ t. omega (arith, r.apart t);
          alone = r.alone;
          written = r.written;
          kept = λ a. omega (arith, r.kept a, ap (count a) none_left);
        },
      )

  pub write-Result :
      (slot v : ℕ) → IsOutside s slot → Result (record s { words = update s.words slot v })
  write-Result slot v out =
      let clear = outside-apart slot out in
      (
        stack,
        rest,
        record {
          stacked = Chain-update s.words slot v s.head stack r.stacked (omega (arith, clear));
          taken = Chain-update s.words slot v s.cursor rest r.taken (omega (arith, clear));
          once = r.once;
          apart = r.apart;
          alone = r.alone;
          written = λ t. IsWritten-update s.words slot v (s.pc t) (r.written t) (out.not_pushing t);
          kept = r.kept;
        },
      )
