-- ===== src/Queue/Holds.antt =====
-- What a queue holds, and the functions that add and take an item.
use libibtl.Base.{
  ℕ, suc, ◌+◌, ◌≡◌, refl, ◌≢◌, ◌&&◌, true, false, some, [], ◌∷◌, ◌++◌, arith, ◌==◌, sym, ap, ◌∙◌,
  subst, ◌||◌, if◌then◌else◌, length-append, none,
}
use libibtl.Base
use libibtl.Store.{Ptr, null, node, Heap, write, ok, alloc, ◌>>=◌}
use libibtl.Store.Cells.{
  Cells, first, last, Linked, SameOutside, Linked-write, has_of_none, Linked-snoc, last-snoc,
  set_next-ok, load-ok, free-ok, not_null, ne-has, ne-has_out, not-has-snoc,
}
use libibtl.Store.Returns.{Returns}
use libibtl.Queue.{Queue, create, enq, deq}

-- the queue's nodes are the cells `cs`, in order
pub record Holds (h : Heap) (q : Queue) (cs : Cells) : Type 0 where
  pub head : q.head ≡ first cs
  pub tail : q.tail ≡ last cs
  pub length : q.length ≡ Base.length cs
  pub linked : Linked h cs

pub create-Holds : (h : Heap) (garbage : Ptr) → Holds h (create garbage) []
unfolding create
create-Holds h garbage = record { head = refl; tail = refl; length = refl; linked = tt }

-- enq appends a cell with the item, where `malloc` gives an address that is free and not NULL; it
-- keeps the iterator and the lock, and writes only to the queue
pub enq-Holds :
    (h : Heap) (q : Queue) (cs : Cells) (fresh item : Ptr)
    → Holds h q cs
    → fresh ≢ null
    → h fresh ≡ none
    → Returns
        (λ q' g.
          Holds g q' (cs ++ (fresh, item) ∷ [])
          × (q'.ite ≡ q.ite)
          × (q'.mut ≡ q.mut)
          × SameOutside (cs ++ (fresh, item) ∷ []) h g)
        (enq fresh q item h)
unfolding enq alloc write
enq-Holds h q [] fresh item holds nonnull unused =
    let empty : ((q.head == null) && (q.tail == null)) ≡ true = ground arith in
    rw (not_null fresh nonnull, empty)
      (
        record {
          head = refl;
          tail = refl;
          length = omega arith;
          linked = (nonnull, ground arith, refl, tt);
        },
        refl,
        refl,
        ground arith,
      )
enq-Holds h q (c ∷ cs) fresh item holds nonnull unused =
    let full : ((q.head == null) && (q.tail == null)) ≡ false = ground arith in
    let out = has_of_none h fresh (c ∷ cs) holds.linked unused in
    let (e, at, nn, inside, linked) = Linked-snoc h c cs fresh item holds.linked nonnull out in
    let g = write h fresh (some (node null item)) in
    let at_tail : g q.tail ≡ some (node null e) =
      rw holds.tail (rw (ne-has_out fresh (last (c ∷ cs)) (c ∷ cs) out inside) at) in
    let tail_ne : q.tail ≢ null = λ e. nn (sym holds.tail ∙ e) in
    rw (not_null fresh nonnull, full, ◌>>=◌, set_next-ok g tail_ne at_tail fresh)
      (
        record {
          head = holds.head;
          tail = sym (last-snoc (c ∷ cs) fresh item);
          length = rw (length-append cs ((fresh, item) ∷ [])) (omega (arith, holds.length));
          linked =
              subst (λ t. Linked (write g t (some (node fresh e))) ((c ∷ cs) ++ (fresh, item) ∷ []))
                (sym holds.tail) linked;
        },
        refl,
        refl,
        λ a o.
            let (out_a, ne_f) = not-has-snoc a (c ∷ cs) fresh item o in
            let ne_t : (a == q.tail) ≡ false = rw holds.tail (ne-has a _ (c ∷ cs) out_a inside) in
            rw (ne_t, ne_f),
      )

-- deq takes the first item of a queue that is not empty, frees its node and keeps the others, the iterator and the lock
pub deq-Holds :
    (h : Heap) (q : Queue) (a item : Ptr) (cs : Cells)
    → Holds h q ((a, item) ∷ cs)
    → Returns
        (λ (d, q') g.
          (d ≡ item) × Holds g q' cs × (q'.ite ≡ q.ite) × (q'.mut ≡ q.mut) × (g ≡ write h a none))
        (deq q h)
unfolding deq
deq-Holds h q a item [] holds =
    let at : h q.head ≡ some (node null item) = rw holds.head holds.linked.1 in
    let nn : q.head ≢ null = λ e. holds.linked.0 (sym holds.head ∙ e) in
    rw (not_null q.head nn, ◌>>=◌, load-ok h nn at, free-ok h nn at)
      (
        refl,
        record { head = refl; tail = refl; length = omega (arith, holds.length); linked = tt },
        refl,
        refl,
        ap (λ p. write h p none) holds.head,
      )
deq-Holds h q a item (c ∷ cs) holds =
    let at : h q.head ≡ some (node c.0 item) = rw holds.head holds.linked.1 in
    let nn : q.head ≢ null = λ e. holds.linked.0 (sym holds.head ∙ e) in
    let nn' = not_null c.0 holds.linked.3.0 in
    rw (not_null q.head nn, ◌>>=◌, load-ok h nn at, free-ok h nn at, nn')
      (
        refl,
        record {
          head = refl;
          tail = holds.tail;
          length = omega (arith, holds.length);
          linked =
              subst (λ p. Linked (write h p none) (c ∷ cs)) (sym holds.head)
                (Linked-write h a none (c ∷ cs) holds.linked.3 holds.linked.2);
        },
        refl,
        refl,
        ap (λ p. write h p none) holds.head,
      )

-- on an empty queue deq returns NULL and changes nothing
pub deq_empty : (h : Heap) (q : Queue) → Holds h q [] → deq q h ≡ ok (null, q) h
unfolding deq
deq_empty h q holds = rw holds.head
