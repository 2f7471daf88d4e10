-- ===== src/Queue/Filter/Removal.antt =====
-- The removal of the item that an iteration stands at.
use libibtl.Base.{
  ◌≡◌, refl, sym, ap, subst, ◌∙◌, true, false, [], ◌∷◌, ◌++◌, append_assoc, arith, ◌==◌,
}
use libibtl.Store.{Ptr, Heap}
use libibtl.Store.Cells.{Cells, first, Linked, SameOutside}
use libibtl.Store.Returns
use libibtl.Store.Returns.{Returns}
use libibtl.Queue.{Queue, remove}
use libibtl.Queue.Holds.{Holds}
use libibtl.Queue.Remove.{erase, Removes, remove-Removes, ite_after}
use libibtl.Queue.Cursor.{holds_item, remaining, ite_after-append}

-- What is left: the cells in front of the one removed and those behind it.
pub record Left (h : Heap) (q : Queue) (ks : Cells) (c : Ptr × Ptr) (cs : Cells) (q' : Queue)
    (g : Heap) : Type 0 where
  pub holds : Holds g q' (ks ++ cs)
  pub ite : q'.ite ≡ first cs
  pub mut : q'.mut ≡ q.mut
  pub same : SameOutside (ks ++ c ∷ cs) h g

erase-current :
    (p b : Ptr) (ks cs : Cells) → holds_item p ks ≡ false → erase p (ks ++ (b, p) ∷ cs) ≡ ks ++ cs
unfolding erase holds_item
erase-current p b [] cs out = let own : (p == p) ≡ true = ground arith in rw own refl
erase-current p b ((a, d) ∷ ks) cs out =
    let miss : (d == p) ≡ false = ground arith in
    rw miss (ap (λ l. (a, d) ∷ l) (erase-current p b ks cs (ground arith)))

holds_item-snoc : (p b : Ptr) (ks : Cells) → holds_item p (ks ++ (b, p) ∷ []) ≡ true
unfolding holds_item
holds_item-snoc p b [] = ground arith
holds_item-snoc p b ((a, d) ∷ ks) = ground (arith, holds_item-snoc p b ks)

-- the iterator is behind the cell already
ite_after-current :
    (p b : Ptr) (h : Heap) (ks cs : Cells)
    → Linked h (ks ++ (b, p) ∷ cs)
    → ite_after p (first cs) (ks ++ (b, p) ∷ cs) ≡ first cs
unfolding remaining
ite_after-current p b h [] cs l =
    let all = holds_item-snoc p b [] in ite_after-append p h (b, p) [] cs l ∙ (rw all refl)
ite_after-current p b h (c ∷ ks) cs l =
    let all = holds_item-snoc p b (c ∷ ks) in
    let same : c ∷ (ks ++ (b, p) ∷ []) ++ cs ≡ c ∷ ks ++ (b, p) ∷ cs =
      append_assoc (c ∷ ks) ((b, p) ∷ []) cs in
    ap (ite_after p (first cs)) (sym same)
    ∙ ite_after-append p h c (ks ++ (b, p) ∷ []) cs (subst (Linked h) (sym same) l)
    ∙ (rw all refl)

pub remove-Left :
    (p b : Ptr) (h : Heap) (q : Queue) (ks cs : Cells)
    → Holds h q (ks ++ (b, p) ∷ cs)
    → q.ite ≡ first cs
    → holds_item p ks ≡ false
    → Returns (Left h q ks (b, p) cs) (remove q p h)
remove-Left p b h q ks cs holds at out =
    Returns.mono (Removes p h (ks ++ (b, p) ∷ cs) q) (Left h q ks (b, p) cs) _
      (remove-Removes p h q (ks ++ (b, p) ∷ cs) holds)
      (λ q' g r. record {
        holds = subst (Holds g q') (erase-current p b ks cs out) r.holds;
        ite =
            r.ite
            ∙ ap (λ i. ite_after p i (ks ++ (b, p) ∷ cs)) at
            ∙ ite_after-current p b h ks cs holds.linked;
        mut = r.mut;
        same = r.same;
      })
