-- ===== src/Queue/Drain.antt =====
-- fdmi_queue_destroy, and the order in which items leave the queue.
use libibtl.Base.{
  ℕ, zero, suc, ◌+◌, ◌<◌, ◌≡◌, refl, ◌≢◌, ap, ◌∙◌, true, false, ◌||◌, Bool-cases, inl, inr, [], ◌∷◌,
  ◌++◌, arith, ◌==◌, Bool, none,
}
use libibtl.Base
use libibtl.Store.{Ptr, Heap, write, ◌>>=◌}
use libibtl.Store.Cells.{Cells, has, SameOutside, not_null}
use libibtl.Store.Returns
use libibtl.Store.Returns.{Returns}
use libibtl.Queue.{Queue, deq, destroy, destroy_loop}
use libibtl.Queue.Holds.{Holds, deq-Holds, deq_empty}
use libibtl.Queue.Iterate.{AllNonNull}

-- every node is given back, and nothing else is written
abbrev pub Drained : Cells → Heap → Queue → Heap → Type 0
Drained cs h q g = Holds g q [] × ((a : Ptr) → has a cs ≡ true → g a ≡ none) × SameOutside cs h g

write-head :
    (h : Heap) (a p : Ptr) (t : Bool) → t ≡ false → ((p == a) || t) ≡ true → write h a none p ≡ none
unfolding write
write-head h a p t o i = ground arith

write_out : (h : Heap) (a p : Ptr) (t : Bool) → ((p == a) || t) ≡ false → write h a none p ≡ h p
unfolding write
write_out h a p t o = ground arith

destroy_loop-Drained :
    (k : ℕ) (h : Heap) (q : Queue) (cs : Cells)
    → Base.length cs < k
    → Holds h q cs
    → AllNonNull cs
    → Returns (Drained cs h) (destroy_loop k q h)
unfolding destroy_loop
destroy_loop-Drained zero h q cs fuel holds all = absurd (omega arith)
destroy_loop-Drained (suc k) h q [] fuel holds all =
    rw (◌>>=◌, deq_empty h q holds) (holds, λ a i. cc, λ a o. refl)
destroy_loop-Drained (suc k) h q ((a, d) ∷ cs) fuel holds all =
    Returns.bind _ _ (deq q h) _ (deq-Holds h q a d cs holds)
      (λ (x, q') g (got, rest, ite, mut, freed).
        rw (got, not_null d all.0)
          (Returns.mono (Drained cs g) _ _ (destroy_loop-Drained k g q' cs (omega arith) rest all.1)
            (λ q₂ g₂ (empty, gone, same). (
              empty,
              λ p i. elim (Bool-cases (has p cs)) [
                | inl inside ↦ gone p inside
                | inr out ↦ same p out ∙ ap (λ f. f p) freed ∙ write-head h a p _ out i
              ],
              λ p o. same p (ground arith) ∙ ap (λ f. f p) freed ∙ write_out h a p _ o,
            ))))

-- fdmi_queue_destroy of a queue that holds no NULL gives back every node, and writes nothing else.
pub destroy-Drained :
    (h : Heap) (q : Queue) (cs : Cells)
    → Holds h q cs
    → AllNonNull cs
    → Returns (Drained cs h) (destroy q h)
unfolding destroy
destroy-Drained h q cs holds all =
    destroy_loop-Drained (q.length + 1) h q cs (omega (arith, holds.length)) holds all
