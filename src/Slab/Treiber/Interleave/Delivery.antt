-- ===== src/Slab/Treiber/Interleave/Delivery.antt =====
-- Every slot that is pushed reaches the owner once, whatever the order of the steps.
use clmalloc.Base.{ℕ, suc, ◌≤◌, ◌≡◌, ◌≢◌, refl, ap, List, [], ◌∷◌, arith}
use clmalloc.Base.Fun.{update}
use clmalloc.Slab.Links.{Words, null, count, Chain-update}
use clmalloc.Slab.Treiber.Interleave.{
  Remote, Step, by_push, by_owner, load, link, exchange, retry, swap, take, write, Reach, here,
  later,
}
use clmalloc.Slab.Treiber.Interleave.Invariant.{IsRemote, Chain-null, IsWritten-update}
use clmalloc.Slab.Treiber.Interleave.Moves.{
  load-Result, link-Result, retry-Result, exchange-Result, swap-Result, write-Result,
}

take-Result :
    {s : Remote} {stack : List ℕ} (rest : List ℕ)
    → IsRemote s stack rest
    → s.cursor ≢ null
    → (rest' : List ℕ) × IsRemote
        (record s {
          words = update s.words s.cursor s.free_list;
          cursor = s.words s.cursor;
          free_list = s.cursor;
          received = s.cursor ∷ s.received;
        })
        stack
        rest'
take-Result [] r ne = absurd (ne r.taken)
take-Result {s} {stack} (x ∷ xs) r ne =
    let (at, some_slot, behind) = r.taken in
    (
      xs,
      record {
        stacked =
            Chain-update s.words s.cursor s.free_list s.head stack r.stacked
              (ground (arith, r.once x));
        taken =
            rw at
              (Chain-update s.words x s.free_list (s.words x) xs behind (ground (arith, r.once x)));
        once = λ a. ground (arith, r.once a);
        apart = λ t. ground (arith, r.apart t);
        alone = r.alone;
        written = λ t.
            IsWritten-update s.words s.cursor s.free_list (s.pc t) (r.written t)
              (λ e. ground (arith, r.apart t));
        kept = λ a. ground (arith, r.kept a);
      },
    )

Step-IsRemote :
    {s t : Remote} {stack rest : List ℕ}
    → IsRemote s stack rest
    → Step s t
    → (stack' : List ℕ) × (rest' : List ℕ) × IsRemote t stack' rest'
Step-IsRemote r (by_push (load t slot at out)) = load-Result r t slot out
Step-IsRemote r (by_push (link t slot head at)) = link-Result r t slot head at
Step-IsRemote r (by_push (exchange t slot head at same)) = exchange-Result r t slot head at same
Step-IsRemote r (by_push (retry t slot head at)) = retry-Result r t slot head at
Step-IsRemote r (by_owner (swap free)) = swap-Result r free
Step-IsRemote {stack = stack} {rest = rest} r (by_owner (take busy)) =
    let (rest', r') = take-Result rest r busy in (stack, rest', r')
Step-IsRemote r (write slot v out) = write-Result r slot v out

Reach-IsRemote :
    {words : Words} {s : Remote}
    → Reach words s
    → (stack : List ℕ) × (rest : List ℕ) × IsRemote s stack rest
Reach-IsRemote here = (
  [],
  [],
  record {
    stacked = refl;
    taken = refl;
    once = λ a. omega arith;
    apart = λ t. refl;
    alone = λ t u ne e. refl;
    written = λ t. tt;
    kept = λ a. refl;
  },
)
Reach-IsRemote (later p step) = let (stack, rest, r) = Reach-IsRemote p in Step-IsRemote r step

-- However the steps of the pushing threads and of the owner interleave, a slot is received at most as
-- often as it was pushed, and at most one push of it is outstanding. Once the stack and the owner's
-- chain are empty, it was received exactly as often.
pub Reach-delivered :
    {words : Words} {s : Remote}
    → Reach words s
    → (a : ℕ)
    → (count a s.received ≤ count a s.pushed)
      × (count a s.pushed ≤ suc (count a s.received))
      × (s.head ≡ null → s.cursor ≡ null → count a s.pushed ≡ count a s.received)
Reach-delivered {s = s} p a =
    let (stack, rest, r) = Reach-IsRemote p in
    (
      omega (arith, r.kept a),
      omega (arith, r.kept a, r.once a),
      λ e f.
          let none_stacked : stack ≡ [] = Chain-null s.words stack (rw e at r.stacked) in
          let none_taken : rest ≡ [] = Chain-null s.words rest (rw f at r.taken) in
          omega (arith, r.kept a, ap (count a) none_stacked, ap (count a) none_taken),
    )
