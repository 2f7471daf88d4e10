-- ===== src/Queue/Remove.antt =====
-- fdmi_queue_remove: it unlinks and frees the first node that holds the item.
use libibtl.Base.{
  ℕ, zero, suc, ◌+◌, ◌<◌, ◌≡◌, refl, ◌≢◌, sym, ap, subst, ◌∙◌, true, false, Bool-cases, inl, inr,
  [], ◌∷◌, arith, ◌==◌, ◌||◌, if◌then◌else◌, some, none, Bool,
}
use libibtl.Base
use libibtl.Store.{Ptr, null, node, Heap, write, ◌>>=◌}
use libibtl.Store.Cells.{
  Cells, first, last, has, Linked, SameOutside, Linked-write, load-ok, set_next-ok, free-ok,
  not_null, has-last, ne-has_out,
}
use libibtl.Store.Returns
use libibtl.Store.Returns.{Returns}
use libibtl.Queue.{Queue, remove, remove_loop, remove_head, unlink}
use libibtl.Queue.Holds.{Holds}

-- the cells without the first one that holds the item
unfoldable pub erase : Ptr → Cells → Cells
erase item [] = []
erase item ((a, d) ∷ cs) = if d == item then cs else (a, d) ∷ erase item cs

-- where an iterator at `p` stands after that: past the cell, if it stood there
unfoldable pub skip : Ptr → Ptr → Cells → Ptr
skip item p [] = p
skip item p ((a, d) ∷ cs) = if d == item then (if p == a then first cs else p) else skip item p cs

pub has-erase : (b item : Ptr) (cs : Cells) → has b cs ≡ false → has b (erase item cs) ≡ false
unfolding erase
has-erase b item [] o = refl
has-erase b item ((a, d) ∷ cs) o = ground (arith, has-erase b item cs)

-- what the loop does to the cells behind the cell `c`
record Removed (item : Ptr) (h : Heap) (c : Ptr × Ptr) (cs : Cells) (q q' : Queue) (g : Heap)
    : Type 0 where
  linked : Linked g (c ∷ erase item cs)
  same : SameOutside (c ∷ cs) h g
  freed : (b : Ptr) → has b cs ≡ true → has b (erase item cs) ≡ false → g b ≡ none
  head : q'.head ≡ q.head
  tail : q.tail ≡ last (c ∷ cs) → q'.tail ≡ last (c ∷ erase item cs)
  ite : q'.ite ≡ skip item q.ite cs
  mut : q'.mut ≡ q.mut
  count : q'.length + Base.length cs ≡ q.length + Base.length (erase item cs)

only : (p b : Ptr) (t : Bool) → ((p == b) || t) ≡ true → t ≡ false → (p == b) ≡ true
only p b t i o = ground arith

-- the tail of the queue where the node `b` behind `a` is unlinked
tail-unlink :
    (h : Heap) (a x b y : Ptr) (cs : Cells) (t : Ptr)
    → Linked h ((b, y) ∷ cs)
    → t ≡ last ((b, y) ∷ cs)
    → (if t == b then a else t) ≡ last ((a, x) ∷ cs)
tail-unlink h a x b y [] t l e = ground arith
tail-unlink h a x b y (c ∷ cs) t l e =
    let ne : (last (c ∷ cs) == b) ≡ false = ne-has_out b _ (c ∷ cs) l.2 (has-last c cs) in
    rw (e, ne)

-- the tail where the first node is unlinked
tail-head :
    (h : Heap) (c : Ptr × Ptr) (cs : Cells) (t : Ptr)
    → Linked h cs
    → t ≡ last (c ∷ cs)
    → (if first cs == null then null else t) ≡ last cs
tail-head h c [] t l e = refl
tail-head h c ((b, y) ∷ cs) t l e = rw (not_null b l.0) e

-- the node behind the cell `c` is the one
unlink-Removed :
    (item : Ptr) (h : Heap) (a x b y : Ptr) (cs : Cells) (q : Queue)
    → Linked h ((a, x) ∷ (b, y) ∷ cs)
    → (y == item) ≡ true
    → 0 < q.length
    → Returns (Removed item h (a, x) ((b, y) ∷ cs) q) (unlink a b (first cs) q h)
unfolding unlink erase skip write
unlink-Removed item h a x b y cs q l hit pos =
    let ne_ba : (b == a) ≡ false = ground arith in
    let ne_ab : (a == b) ≡ false = ground arith in
    let out_a : has a cs ≡ false = ground arith in
    let h₁ = write h a (some (node (first cs) x)) in
    let at_b : h₁ b ≡ some (node (first cs) y) = rw ne_ba l.3.1 in
    let rest = Linked-write h₁ b none cs (Linked-write h a _ cs l.3.3 out_a) l.3.2 in
    rw (◌>>=◌, set_next-ok h l.0 l.1 (first cs), free-ok h₁ l.3.0 at_b)
      (record {
        linked = rw hit (l.0, rw ne_ab (ground arith), out_a, rest);
        same = λ p o. ground arith;
        freed = λ p i o. let o' : has p cs ≡ false = rw hit at o in rw (only p b _ i o');
        head = refl;
        tail = λ e. rw hit (tail-unlink h a x b y cs q.tail l.3 e);
        ite = rw hit refl;
        mut = refl;
        count = rw hit (omega arith);
      })

-- the node behind the cell `c` is not the one
Removed-cons :
    (item : Ptr) (h : Heap) (a x b y : Ptr) (cs : Cells) (q q' : Queue) (g : Heap)
    → Linked h ((a, x) ∷ (b, y) ∷ cs)
    → (y == item) ≡ false
    → Removed item h (b, y) cs q q' g
    → Removed item h (a, x) ((b, y) ∷ cs) q q' g
unfolding erase skip
Removed-cons item h a x b y cs q q' g l miss r = record {
  linked = rw miss (l.0, rw (r.same a l.2) l.1, ground (arith, has-erase a item cs), r.linked);
  same = λ p o. r.same p (ground arith);
  freed = λ p i o.
      let o' : has p ((b, y) ∷ erase item cs) ≡ false = rw miss at o in
      r.freed p (ground arith) (ground arith);
  head = r.head;
  tail = λ e. rw miss (r.tail e);
  ite = rw miss r.ite;
  mut = r.mut;
  count = rw miss (omega (arith, r.count));
}

remove_loop-Removed :
    (item : Ptr) (k : ℕ) (h : Heap) (a x : Ptr) (cs : Cells) (q : Queue)
    → Base.length cs < k
    → Linked h ((a, x) ∷ cs)
    → Base.length cs < q.length
    → Returns (Removed item h (a, x) cs q) (remove_loop item k a (first cs) q h)
unfolding remove_loop erase skip
remove_loop-Removed item zero h a x cs q fuel l pos = absurd (omega arith)
remove_loop-Removed item (suc k) h a x [] q fuel l pos = record {
  linked = l;
  same = λ p o. refl;
  freed = λ p i o. cc;
  head = refl;
  tail = λ e. e;
  ite = refl;
  mut = refl;
  count = refl;
}
remove_loop-Removed item (suc k) h a x ((b, y) ∷ cs) q fuel l pos =
    rw (not_null b l.3.0, ◌>>=◌, load-ok h l.3.0 l.3.1)
      (elim (Bool-cases (y == item)) [
        | inl hit ↦ rw hit (unlink-Removed item h a x b y cs q l hit (omega arith))
        | inr miss ↦ rw miss (
            Returns.mono (Removed item h (b, y) cs q) _ _
              (remove_loop-Removed item k h b y cs q (omega arith) l.3 (omega arith))
              (λ q' g r. Removed-cons item h a x b y cs q q' g l miss r))
      ])

-- the iterator after the whole of fdmi_queue_remove
unfoldable pub ite_after : Ptr → Ptr → Cells → Ptr
ite_after item p [] = p
ite_after item p ((a, d) ∷ cs) =
    if d == item then (if first cs == null then null else p) else skip item p cs

-- The outcome of `remove` on a queue with the cells `cs`.
pub record Removes (item : Ptr) (h : Heap) (cs : Cells) (q q' : Queue) (g : Heap) : Type 0 where
  pub holds : Holds g q' (erase item cs)
  pub same : SameOutside cs h g
  pub freed : (b : Ptr) → has b cs ≡ true → has b (erase item cs) ≡ false → g b ≡ none
  pub ite : q'.ite ≡ ite_after item q.ite cs
  pub mut : q'.mut ≡ q.mut

remove_head-Removes :
    (item : Ptr) (h : Heap) (q : Queue) (a x : Ptr) (cs : Cells)
    → Holds h q ((a, x) ∷ cs)
    → (x == item) ≡ true
    → Returns (Removes item h ((a, x) ∷ cs) q) (remove_head (first cs) q h)
unfolding remove_head erase ite_after write
remove_head-Removes item h q a x cs holds hit =
    let at : h q.head ≡ some (node (first cs) x) = rw holds.head holds.linked.1 in
    let nn : q.head ≢ null = λ e. holds.linked.0 (sym holds.head ∙ e) in
    rw (◌>>=◌, free-ok h nn at)
      (record {
        holds = rw hit (record {
          head = refl;
          tail = tail-head h (a, x) cs q.tail holds.linked.3 holds.tail;
          length = omega (arith, holds.length);
          linked =
              subst (λ p. Linked (write h p none) cs) (sym holds.head)
                (Linked-write h a none cs holds.linked.3 holds.linked.2);
        });
        same = λ p o. rw holds.head (ground arith);
        freed =
            λ p i o. let o' : has p cs ≡ false = rw hit at o in rw (holds.head, only p a _ i o');
        ite = rw hit refl;
        mut = refl;
      })

Removed-Removes :
    (item : Ptr) (h : Heap) (q q' : Queue) (g : Heap) (a x : Ptr) (cs : Cells)
    → Holds h q ((a, x) ∷ cs)
    → (x == item) ≡ false
    → Removed item h (a, x) cs q q' g
    → Removes item h ((a, x) ∷ cs) q q' g
unfolding erase ite_after
Removed-Removes item h q q' g a x cs holds miss r = record {
  holds = rw miss (record {
    head = r.head ∙ holds.head;
    tail = r.tail holds.tail;
    length = omega (arith, r.count, holds.length);
    linked = r.linked;
  });
  same = r.same;
  freed = λ p i o.
      let o' : has p ((a, x) ∷ erase item cs) ≡ false = rw miss at o in
      r.freed p (ground arith) (ground arith);
  ite = rw miss r.ite;
  mut = r.mut;
}

-- fdmi_queue_remove unlinks and frees the first node with the item, if there is one. The others stay
-- in their order, nothing outside the queue is written, and the mutex is as it was.
pub remove-Removes :
    (item : Ptr) (h : Heap) (q : Queue) (cs : Cells)
    → Holds h q cs
    → Returns (Removes item h cs q) (remove q item h)
unfolding remove erase ite_after
remove-Removes item h q [] holds =
    let e : (q.head == null) ≡ true = ground arith in
    rw e (record {
      holds = record { head = holds.head; tail = holds.tail; length = holds.length; linked = tt };
      same = λ p o. refl;
      freed = λ p i o. cc;
      ite = refl;
      mut = refl;
    })
remove-Removes item h q ((a, x) ∷ cs) holds =
    let at : h q.head ≡ some (node (first cs) x) = rw holds.head holds.linked.1 in
    let nn : q.head ≢ null = λ e. holds.linked.0 (sym holds.head ∙ e) in
    rw (not_null q.head nn, ◌>>=◌, load-ok h nn at)
      (elim (Bool-cases (x == item)) [
        | inl hit ↦ rw hit (remove_head-Removes item h q a x cs holds hit)
        | inr miss ↦ rw miss (
            Returns.mono (Removed item h (a, x) cs q) _ _
              (subst
                (λ p.
                  Returns (Removed item h (a, x) cs q)
                    (remove_loop item (q.length + 1) p (first cs) q h))
                (sym holds.head)
                (remove_loop-Removed item (q.length + 1) h a x cs q (omega (arith, holds.length))
                  holds.linked (omega (arith, holds.length))))
              (λ q' g r. Removed-Removes item h q q' g a x cs holds miss r))
      ])
