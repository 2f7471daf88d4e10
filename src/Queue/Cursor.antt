-- ===== src/Queue/Cursor.antt =====
-- Removal while the queue is iterated over, as the loops of src/fdmi.c do it.
use libibtl.Base.{
  ◌≡◌, refl, ◌≢◌, ap, subst, ◌∙◌, false, Bool, ◌||◌, Bool-cases, inl, inr, [], ◌∷◌, ◌++◌, arith,
  ◌==◌, if◌then◌else◌,
}
use libibtl.Store.{Ptr, null, Heap}
use libibtl.Store.Cells.{Cells, first, has, Linked, not_null, has-append}
use libibtl.Store.Returns
use libibtl.Store.Returns.{Returns}
use libibtl.Queue.{Queue, remove}
use libibtl.Queue.Holds.{Holds}
use libibtl.Queue.Remove.{erase, skip, ite_after, Removes, remove-Removes}

-- some cell holds the item
unfoldable pub holds_item : Ptr → Cells → Bool
holds_item item [] = false
holds_item item ((a, d) ∷ cs) = (d == item) || holds_item item cs

-- the cells that the iteration has still to visit after a removal
unfoldable pub remaining : Ptr → Cells → Cells → Cells
remaining item visited rest = if holds_item item visited then rest else erase item rest

erase-append :
    (item : Ptr) (cs ds : Cells) → erase item (cs ++ ds) ≡ erase item cs ++ remaining item cs ds
unfolding erase remaining holds_item
erase-append item [] ds = refl
erase-append item ((a, d) ∷ cs) ds = ground (arith, erase-append item cs ds)

skip_out : (item p : Ptr) (cs : Cells) → has p cs ≡ false → skip item p cs ≡ p
unfolding skip
skip_out item p [] o = refl
skip_out item p ((a, d) ∷ cs) o = ground (arith, skip_out item p cs)

-- an iterator that stands at the first cell
skip-first :
    (item : Ptr) (h : Heap) (cs : Cells)
    → Linked h cs
    → skip item (first cs) cs ≡ first (erase item cs)
unfolding skip erase
skip-first item h [] l = refl
skip-first item h ((a, d) ∷ cs) l = ground (arith, skip_out item a cs)

first-ne :
    (h : Heap) (a : Ptr) (cs ds : Cells)
    → a ≢ null
    → has a (cs ++ ds) ≡ false
    → (first ds == a) ≡ false
first-ne h a cs [] nn o = ground arith
first-ne h a cs ((b, d) ∷ ds) nn o =
    let o' : (has a cs || has a ((b, d) ∷ ds)) ≡ false = rw has-append at o in ground arith

first-or-null :
    (h : Heap) (visited rest : Cells)
    → Linked h (visited ++ rest)
    → (if first (visited ++ rest) == null then null else first rest) ≡ first rest
first-or-null h [] rest l = ground arith
first-or-null h ((b, d) ∷ visited) rest l = rw (not_null b l.0)

-- an iterator that stands behind some visited cells
skip-append :
    (item : Ptr) (h : Heap) (visited rest : Cells)
    → Linked h (visited ++ rest)
    → skip item (first rest) (visited ++ rest) ≡ first (remaining item visited rest)
unfolding skip remaining holds_item
skip-append item h [] rest l = skip-first item h rest l
skip-append item h ((a, d) ∷ visited) rest l =
    let ne = first-ne h a visited rest l.0 l.2 in
    elim (Bool-cases (d == item)) [
      | inl hit ↦ rw (hit, ne)
      | inr miss ↦ rw miss (skip-append item h visited rest l.3)
    ]

pub ite_after-append :
    (item : Ptr) (h : Heap) (c : Ptr × Ptr) (visited rest : Cells)
    → Linked h ((c ∷ visited) ++ rest)
    → ite_after item (first rest) ((c ∷ visited) ++ rest)
      ≡ first (remaining item (c ∷ visited) rest)
unfolding ite_after remaining holds_item
ite_after-append item h (a, d) visited rest l = elim (Bool-cases (d == item)) [
  | inl hit ↦ rw hit (first-or-null h visited rest l.3)
  | inr miss ↦ rw miss (skip-append item h visited rest l.3)
]

-- A removal during an iteration, which has visited at least one cell: afterwards the iterator stands
-- at the first cell that is left among those not visited, and no visited cell but the one removed
-- is lost.
pub remove-remaining :
    (item : Ptr) (h : Heap) (q : Queue) (c : Ptr × Ptr) (visited rest : Cells)
    → Holds h q ((c ∷ visited) ++ rest)
    → q.ite ≡ first rest
    → Returns
        (λ q' g.
          Holds g q' (erase item (c ∷ visited) ++ remaining item (c ∷ visited) rest)
          × (q'.ite ≡ first (remaining item (c ∷ visited) rest)))
        (remove q item h)
remove-remaining item h q c visited rest holds at =
    Returns.mono (Removes item h ((c ∷ visited) ++ rest) q) _ _
      (remove-Removes item h q ((c ∷ visited) ++ rest) holds)
      (λ q' g r. (
        subst (λ cs. Holds g q' cs) (erase-append item (c ∷ visited) rest) r.holds,
        r.ite
            ∙ ap (λ p. ite_after item p ((c ∷ visited) ++ rest)) at
            ∙ ite_after-append item h c visited rest holds.linked,
      ))
