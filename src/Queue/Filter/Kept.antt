-- ===== src/Queue/Filter/Kept.antt =====
-- What the loop leaves in the queue: the items that are kept.
use libibtl.Base.{
  ℕ, zero, suc, ◌+◌, ◌<◌, ◌≡◌, refl, ◌≢◌, sym, ap, subst, ◌∙◌, Bool, true, false, Bool-cases,
  Option, some, inl, inr, List, [], ◌∷◌, ◌++◌, append_assoc, append-nil, arith, ◌==◌, ◌||◌,
  if◌then◌else◌,
}
use libibtl.Base
use libibtl.Store
use libibtl.Store.{Ptr, null, Heap, ok, ◌>>=◌}
use libibtl.Store.Cells.{Cells, first, has, SameOutside, not_null}
use libibtl.Store.Returns
use libibtl.Store.Returns.{Returns}
use libibtl.Queue.{Queue, queue_head, queue_next, iterate, remove}
use libibtl.Queue.Holds.{Holds}
use libibtl.Queue.Iterate.{Linked-drop, iterate-head, iterate-next, iterate_end}
use libibtl.Queue.Search.{Entries, PointTo, PointTo-snoc}
use libibtl.Queue.Filter.{
  filter_loop, filter, kept, dropped_items, AllKept, AllKept-snoc, holds_item-kept,
}
use libibtl.Queue.Filter.Removal.{Left, remove-Left}

-- a queue that had the cells `cs` has the items of `es`
pub record Kept {A : Type 0} (store : Ptr → Option A) (h : Heap) (mut : Bool) (cs : Cells)
    (es : Entries A) (removed : List Ptr) (result : Queue × List Ptr) (g : Heap) : Type 0 where
  pub cells : Cells
  pub holds : Holds g (result.0) cells
  pub points : PointTo store cells es
  pub same_mut : result.0.mut ≡ mut
  pub same : SameOutside cs h g
  pub within : (a : Ptr) → has a cs ≡ false → has a cells ≡ false
  pub same_removed : result.1 ≡ removed

has_without :
    (a : Ptr) (ks : Cells) (c : Ptr × Ptr) (cs : Cells)
    → has a (ks ++ c ∷ cs) ≡ false
    → has a (ks ++ cs) ≡ false
has_without a [] c cs out = ground arith
has_without a (k ∷ ks) c cs out = ground (arith, has_without a ks c cs)

module _ {A : Type 0} (store : Ptr → Option A) (keeps : A → Bool) where
  Kept-removal :
      (h g₁ : Heap) (mut : Bool) (ks : Cells) (c : Ptr × Ptr) (cs : Cells) (es : Entries A)
      (removed : List Ptr) (result : Queue × List Ptr) (g : Heap)
      → SameOutside (ks ++ c ∷ cs) h g₁
      → Kept store g₁ mut (ks ++ cs) es removed result g
      → Kept store h mut (ks ++ c ∷ cs) es removed result g
  Kept-removal h g₁ mut ks c cs es removed result g same r = record {
    cells = r.cells;
    holds = r.holds;
    points = r.points;
    same_mut = r.same_mut;
    same = λ a out. r.same a (has_without a ks c cs out) ∙ same a out;
    within = λ a out. r.within a (has_without a ks c cs out);
    same_removed = r.same_removed;
  }

  Kept-cast :
      {h : Heap} {mut mut' : Bool} {cs cs' : Cells} {es es' : Entries A}
      {removed removed' : List Ptr}
      → mut ≡ mut'
      → cs ≡ cs'
      → es ≡ es'
      → removed ≡ removed'
      → (result : Queue × List Ptr) (g : Heap) → Kept store h mut cs es removed result g
      → Kept store h mut' cs' es' removed' result g
  Kept-cast to_mut to_cs to_es to_removed result g r = record {
    cells = r.cells;
    holds = r.holds;
    points = subst (PointTo store r.cells) to_es r.points;
    same_mut = r.same_mut ∙ to_mut;
    same = λ a out. r.same a (subst (λ l. has a l ≡ false) (sym to_cs) out);
    within = λ a out. r.within a (subst (λ l. has a l ≡ false) (sym to_cs) out);
    same_removed = r.same_removed ∙ to_removed;
  }

  -- the rest of the loop, with the cells `ks` behind it and `cs` in front
  filter_loop-Kept :
      (k : ℕ) (h : Heap) (q : Queue) (ks : Cells) (kes : Entries A) (cs : Cells) (es : Entries A)
      (removed : List Ptr)
      → Base.length cs < k
      → Holds h q (ks ++ cs)
      → q.ite ≡ first cs
      → PointTo store ks kes
      → AllKept keeps kes
      → PointTo store cs es
      → Returns
          (Kept store h q.mut (ks ++ cs) (kes ++ kept keeps es) (removed ++ dropped_items keeps es))
          ((do (t, q') ← iterate q queue_next; filter_loop store keeps k t q' removed) h)
  unfolding filter_loop kept dropped_items PointTo
  filter_loop-Kept zero h q ks kes cs es removed fuel holds at t all u = absurd (omega arith)
  filter_loop-Kept (suc k) h q ks kes [] [] removed fuel holds at t all u =
      rw (◌>>=◌, iterate_end h q at)
        (record {
          cells = ks;
          holds = subst (Holds h q) (append-nil ks) holds;
          points = subst (PointTo store ks) (sym (append-nil kes)) t;
          same_mut = refl;
          same = λ a out. refl;
          within = λ a out. subst (λ l. has a l ≡ false) (append-nil ks) out;
          same_removed = sym (append-nil removed);
        })
  filter_loop-Kept (suc k) h q ks kes ((b, d) ∷ cs) ((p, x) ∷ es) removed fuel holds at t all
        (same, nn, here, u) =
      let moved : iterate q queue_next h ≡ ok (p, record q { ite = first cs }) h =
        iterate-next h q b d cs at (Linked-drop h ks ((b, d) ∷ cs) holds.linked)
        ∙ ap (λ i. ok (i, record q { ite = first cs }) h) same in
      let q₁ : Queue = record q { ite = first cs } in
      let holds₁ : Holds h q₁ (ks ++ (b, d) ∷ cs) = record {
        head = holds.head;
        tail = holds.tail;
        length = holds.length;
        linked = holds.linked;
      } in
      elim (Bool-cases (keeps x)) [
        | inl keep ↦
            let cells = append_assoc ks ((b, d) ∷ []) cs in
            let points =
              subst (λ i. PointTo store (ks ++ (b, i) ∷ []) (kes ++ (p, x) ∷ [])) (sym same)
                (PointTo-snoc store ks kes b p x t nn here) in
            rw (◌>>=◌, moved, not_null p nn, here, keep)
              (Returns.mono _
                (Kept store h q.mut (ks ++ (b, d) ∷ cs) (kes ++ (p, x) ∷ kept keeps es)
                  (removed ++ dropped_items keeps es))
                _
                (filter_loop-Kept k h q₁ (ks ++ (b, d) ∷ []) (kes ++ (p, x) ∷ []) cs es removed
                  (omega (arith, fuel)) (subst (Holds h q₁) (sym cells) holds₁) refl points
                  (AllKept-snoc keeps kes p x all keep) u)
                (Kept-cast refl cells (append_assoc kes ((p, x) ∷ []) (kept keeps es)) refl))
        | inr gone ↦
            let out = holds_item-kept store keeps p x ks kes t all here gone in
            let holds₂ = subst (λ i. Holds h q₁ (ks ++ (b, i) ∷ cs)) same holds₁ in
            rw (◌>>=◌, moved, not_null p nn, here, gone)
              (Returns.bind (Left h q₁ ks (b, p) cs)
                (Kept store h q.mut (ks ++ (b, d) ∷ cs) (kes ++ kept keeps es)
                  (removed ++ p ∷ dropped_items keeps es))
                (remove q₁ p h) _ (remove-Left p b h q₁ ks cs holds₂ refl out)
                (λ q₂ g l.
                  Returns.mono _
                    (Kept store h q.mut (ks ++ (b, d) ∷ cs) (kes ++ kept keeps es)
                      (removed ++ p ∷ dropped_items keeps es))
                    _
                    (filter_loop-Kept k g q₂ ks kes cs es (removed ++ p ∷ []) (omega (arith, fuel))
                      l.holds l.ite t all u)
                    (λ result f r.
                      Kept-removal h g q.mut ks (b, d) cs _ _ result f
                        (subst (λ i. SameOutside (ks ++ (b, i) ∷ cs) h g) (sym same) l.same)
                        (Kept-cast {es = kes ++ kept keeps es} l.mut refl refl
                          (append_assoc removed (p ∷ []) (dropped_items keeps es)) result f r))))
      ]
  filter_loop-Kept (suc k) h q ks kes [] (e ∷ es) removed fuel holds at t all u = elim (u.0) [ ]
  filter_loop-Kept (suc k) h q ks kes (c ∷ cs) [] removed fuel holds at t all u = elim (u.0) [ ]

  -- The loop removes what is not kept, and leaves the rest in its order.
  pub filter-Kept :
      (h : Heap) (q : Queue) (cs : Cells) (es : Entries A)
      → Holds h q cs
      → PointTo store cs es
      → Returns
          (Kept store h q.mut cs (kept keeps es) (dropped_items keeps es))
          (filter store keeps q h)
  unfolding filter filter_loop kept dropped_items PointTo iterate AllKept
  filter-Kept h q [] [] holds t =
      rw (holds.head, ◌>>=◌, holds.length)
        (record {
          cells = [];
          holds = record { head = refl; tail = holds.tail; length = refl; linked = tt };
          points = tt;
          same_mut = refl;
          same = λ a out. refl;
          within = λ a out. refl;
          same_removed = refl;
        })
  filter-Kept h q ((a, d) ∷ cs) es holds t =
      let q₁ : Queue = record q { ite = q.head } in
      let same : iterate q queue_head h ≡ iterate q₁ queue_next h =
        iterate-head h q a d cs holds ∙ sym (iterate-next h q₁ a d cs holds.head holds.linked) in
      subst
        (λ r.
          Returns (Kept store h q.mut ((a, d) ∷ cs) (kept keeps es) (dropped_items keeps es))
            (Store.continue r (λ (tmp, q') g. filter_loop store keeps (q.length + 1) tmp q' [] g)))
        (sym same)
        (filter_loop-Kept (q.length + 1) h q₁ [] [] ((a, d) ∷ cs) es []
          (omega (arith, holds.length))
          (record {
            head = holds.head;
            tail = holds.tail;
            length = holds.length;
            linked = holds.linked;
          })
          holds.head tt tt t)
  filter-Kept h q [] (e ∷ es) holds t = elim (t.0) [ ]
