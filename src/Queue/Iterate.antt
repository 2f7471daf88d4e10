-- ===== src/Queue/Iterate.antt =====
-- The iterator, and the search that lock_index makes with it.
use libibtl.Base.{
  ℕ, zero, suc, ◌+◌, ◌<◌, ◌≡◌, refl, ◌≢◌, sym, ap, ◌∙◌, true, false, Bool-cases, inl, inr, List, [],
  ◌∷◌, ◌++◌, arith, ◌==◌, if◌then◌else◌, some, append_assoc,
}
use libibtl.Base
use libibtl.Base.Int.{ℤ, pos, minus_one}
use libibtl.Store.{Ptr, null, node, Heap, ok, ◌>>=◌}
use libibtl.Store.Cells.{Cells, first, items, Linked, load-ok, not_null}
use libibtl.Queue.{Queue, queue_head, queue_next, iterate, index_loop, lock_index, lock, unlock}
use libibtl.Queue.Holds.{Holds}

-- the chain behind the first cells is a chain
pub Linked-drop : (h : Heap) (cs ds : Cells) → Linked h (cs ++ ds) → Linked h ds
Linked-drop h [] ds l = l
Linked-drop h (c ∷ cs) ds l = Linked-drop h cs ds l.3

-- iterate with FDMI_QUEUE_HEAD returns the first item and moves the iterator behind it
pub iterate-head :
    (h : Heap) (q : Queue) (a d : Ptr) (cs : Cells)
    → Holds h q ((a, d) ∷ cs)
    → iterate q queue_head h ≡ ok (d, record q { ite = first cs }) h
unfolding iterate
iterate-head h q a d cs holds =
    let at : h q.head ≡ some (node (first cs) d) = rw holds.head holds.linked.1 in
    let nn : q.head ≢ null = λ e. holds.linked.0 (sym holds.head ∙ e) in
    rw (not_null q.head nn, ◌>>=◌, load-ok h nn at)

-- iterate with FDMI_QUEUE_NEXT returns the item that the iterator stands at, and moves on
pub iterate-next :
    (h : Heap) (q : Queue) (a d : Ptr) (cs : Cells)
    → q.ite ≡ a
    → Linked h ((a, d) ∷ cs)
    → iterate q queue_next h ≡ ok (d, record q { ite = first cs }) h
unfolding iterate
iterate-next h q a d cs e linked =
    let at : h q.ite ≡ some (node (first cs) d) = rw e linked.1 in
    let nn : q.ite ≢ null = λ z. linked.0 (sym e ∙ z) in
    rw (not_null q.ite nn, ◌>>=◌, load-ok h nn at)

-- behind the last item iterate returns NULL
pub iterate_end : (h : Heap) (q : Queue) → q.ite ≡ null → iterate q queue_next h ≡ ok (null, q) h
unfolding iterate
iterate_end h q e = rw e

-- the index of the first occurrence, counted from `i`, and -1 if there is none
pub index_of : Ptr → List Ptr → ℕ → ℤ
index_of item [] i = minus_one
index_of item (d ∷ ds) i = if d == item then pos i else index_of item ds (i + 1)

abbrev pub AllNonNull : Cells → Type 0
AllNonNull [] = Unit
AllNonNull ((a, d) ∷ cs) = (d ≢ null) × AllNonNull cs

-- From the item of one cell on, the search finds the first occurrence, and moves the iterator only.
index_loop-index_of :
    (item : Ptr) (k i a d : ℕ) (h : Heap) (q : Queue) (cs : Cells)
    → Base.length cs + 1 < k
    → q.ite ≡ first cs
    → d ≢ null
    → Linked h cs
    → AllNonNull cs
    → (e : Ptr) × (index_loop item k d i q h
        ≡ ok (index_of item (d ∷ items cs) i, record q { ite = e }) h)
unfolding index_loop index_of
index_loop-index_of item zero i a d h q cs fuel at nn l all = absurd (omega arith)
index_loop-index_of item (suc zero) i a d h q cs fuel at nn l all = absurd (omega arith)
index_loop-index_of item (suc (suc k)) i a d h q [] fuel at nn l all =
    elim (Bool-cases (d == item)) [
      | inl hit ↦ (q.ite, rw (not_null d nn, hit))
      | inr miss ↦ (q.ite, rw (not_null d nn, miss, ◌>>=◌, iterate_end h q at))
    ]
index_loop-index_of item (suc (suc k)) i a d h q ((b, x) ∷ cs) fuel at nn l all =
    elim (Bool-cases (d == item)) [
      | inl hit ↦ (q.ite, rw (not_null d nn, hit))
      | inr miss ↦
          let (e, run) =
            index_loop-index_of item (suc k) (i + 1) b x h (record q { ite = first cs }) cs
              (omega arith) refl all.0 l.3 all.1 in
          (e, rw (not_null d nn, miss, ◌>>=◌, iterate-next h q b x cs at l) run)
    ]

-- lock_index finds the first occurrence, on a queue that is not locked and holds no NULL; it leaves
-- the heap and the queue as they are, but for the iterator, and the mutex unlocked
pub lock_index-index_of :
    (item : Ptr) (h : Heap) (q : Queue) (cs : Cells)
    → Holds h q cs
    → q.mut ≡ false
    → AllNonNull cs
    → (e : Ptr) × (lock_index q item h
        ≡ ok (index_of item (items cs) 0, record q { ite = e; mut = false }) h)
unfolding lock_index index_loop index_of lock unlock iterate
lock_index-index_of item h q [] holds free all = (q.ite, rw (free, ◌>>=◌, holds.head, holds.length))
lock_index-index_of item h q ((a, d) ∷ cs) holds free all =
    let locked = record q { mut = true } in
    let holds' : Holds h locked ((a, d) ∷ cs) = record {
      head = holds.head;
      tail = holds.tail;
      length = holds.length;
      linked = holds.linked;
    } in
    let (e, run) =
      index_loop-index_of item (q.length + 1) 0 a d h (record locked { ite = first cs }) cs
        (omega (arith, holds.length)) refl all.0 holds.linked.3 all.1 in
    (e, rw (free, ◌>>=◌, iterate-head h locked a d cs holds', run))
