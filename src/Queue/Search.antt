-- ===== src/Queue/Search.antt =====
-- The loop with which src/fdmi.c looks for an item of a queue: it goes through the queue with the
-- iterator and reads what each item points to.
use libibtl.Base.{
  ℕ, zero, suc, ◌+◌, ◌<◌, ◌≡◌, refl, ◌≢◌, sym, ap, ◌∙◌, Bool, true, false, Bool-cases, Option, none,
  some, inl, inr, List, [], ◌∷◌, ◌++◌, arith, ◌==◌, if◌then◌else◌,
}
use libibtl.Base
use libibtl.Store.{Ptr, null, Heap, Cmd, ok, fault, out_of_fuel, pure, ◌>>=◌}
use libibtl.Store.Cells.{Cells, first, Linked, not_null}
use libibtl.Queue.{Queue, queue_head, queue_next, iterate}
use libibtl.Queue.Holds.{Holds}
use libibtl.Queue.Iterate.{iterate-head, iterate-next, iterate_end}
use libibtl.Queue.Remove.{erase}

-- the items of a queue with what they point to
abbrev pub Entries {ℓ} : Type ℓ → Type ℓ
Entries A = List (Ptr × A)

module _ {ℓ} {A : Type ℓ} where
  -- the test reads what the item points to: a fault where that is not allocated
  search_loop :
      (store : Ptr → Option A) (accepts : A → Bool) → ℕ → (tmp : Ptr) → Queue → Cmd (Ptr × Queue)
  search_loop store accepts zero tmp q = λ _. out_of_fuel
  search_loop store accepts (suc k) tmp q =
      if tmp == null then pure (null, q) else elim (store tmp) [
        | none ↦ (λ _. fault)
        | some x ↦
            if accepts x
            then pure (tmp, q)
            else (do (t, q') ← iterate q queue_next; search_loop store accepts k t q')
      ]

  unfoldable pub search : (store : Ptr → Option A) (accepts : A → Bool) → Queue → Cmd (Ptr × Queue)
  unfolding search_loop
  search store accepts q = do
    (tmp, q') ← iterate q queue_head
    search_loop store accepts (q.length + 1) tmp q'

  -- the cells hold the items of the entries, and these are allocated
  unfoldable pub PointTo : (store : Ptr → Option A) → Cells → Entries A → Type ℓ
  PointTo store [] [] = Unit
  PointTo store ((a, d) ∷ cs) ((p, x) ∷ es) =
      (d ≡ p) × (p ≢ null) × (store p ≡ some x) × PointTo store cs es
  PointTo store [] (e ∷ es) = ⊥ × Unit {ℓ}
  PointTo store (c ∷ cs) [] = ⊥ × Unit {ℓ}

  -- the first item that is accepted, and NULL where there is none
  unfoldable pub found : (accepts : A → Bool) → Entries A → Ptr
  found accepts [] = null
  found accepts ((p, x) ∷ es) = if accepts x then p else found accepts es

  unfoldable pub drop_entry : Ptr → Entries A → Entries A
  drop_entry item [] = []
  drop_entry item ((p, x) ∷ es) = if p == item then es else (p, x) ∷ drop_entry item es

  pub PointTo-erase :
      (store : Ptr → Option A) (item : Ptr) (cs : Cells) (es : Entries A)
      → PointTo store cs es
      → PointTo store (erase item cs) (drop_entry item es)
  unfolding PointTo erase drop_entry
  PointTo-erase store item [] [] t = tt
  PointTo-erase store item ((a, d) ∷ cs) ((p, x) ∷ es) (same, nn, at, t) =
      elim (Bool-cases (p == item)) [
        | inl hit ↦ rw (same, hit) t
        | inr miss ↦ rw (same, miss) (refl, nn, at, PointTo-erase store item cs es t)
      ]
  PointTo-erase store item [] (e ∷ es) t = elim (t.0) [ ]
  PointTo-erase store item (c ∷ cs) [] t = elim (t.0) [ ]

  pub PointTo-snoc :
      (store : Ptr → Option A) (cs : Cells) (es : Entries A) (a p : Ptr) (x : A)
      → PointTo store cs es
      → p ≢ null
      → store p ≡ some x
      → PointTo store (cs ++ (a, p) ∷ []) (es ++ (p, x) ∷ [])
  unfolding PointTo
  PointTo-snoc store [] [] a p x t nn at = (refl, nn, at, tt)
  PointTo-snoc store (c ∷ cs) (e ∷ es) a p x (same, non_null, here, t) nn at =
      (same, non_null, here, PointTo-snoc store cs es a p x t nn at)
  PointTo-snoc store [] (e ∷ es) a p x t nn at = elim (t.0) [ ]
  PointTo-snoc store (c ∷ cs) [] a p x t nn at = elim (t.0) [ ]

  -- From the item of one cell on, the loop finds the first one that is accepted.
  search_loop-found :
      (store : Ptr → Option A) (accepts : A → Bool) (k p : ℕ) (x : A) (h : Heap) (q : Queue)
      (cs : Cells) (es : Entries A)
      → Base.length cs + 1 < k
      → q.ite ≡ first cs
      → p ≢ null
      → store p ≡ some x
      → Linked h cs
      → PointTo store cs es
      → (e : Ptr) × (search_loop store accepts k p q h
          ≡ ok (found accepts ((p, x) ∷ es), record q { ite = e }) h)
  unfolding search_loop found PointTo
  search_loop-found store accepts zero p x h q cs es fuel at nn here l t = absurd (omega arith)
  search_loop-found store accepts (suc zero) p x h q cs es fuel at nn here l t =
      absurd (omega arith)
  search_loop-found store accepts (suc (suc k)) p x h q [] [] fuel at nn here l t =
      elim (Bool-cases (accepts x)) [
        | inl hit ↦ (q.ite, rw (not_null p nn, here, hit))
        | inr miss ↦ (q.ite, rw (not_null p nn, here, miss, ◌>>=◌, iterate_end h q at))
      ]
  search_loop-found store accepts (suc (suc k)) p x h q ((b, d) ∷ cs) ((p', x') ∷ es) fuel at nn
        here l (same, nn', here', t) =
      elim (Bool-cases (accepts x)) [
        | inl hit ↦ (q.ite, rw (not_null p nn, here, hit))
        | inr miss ↦
            let moved : iterate q queue_next h ≡ ok (p', record q { ite = first cs }) h =
              iterate-next h q b d cs at l ∙ ap (λ i. ok (i, record q { ite = first cs }) h) same in
            let (e, run) =
              search_loop-found store accepts (suc k) p' x' h (record q { ite = first cs }) cs es
                (omega (arith, fuel)) refl nn' here' l.3 t in
            (e, rw (not_null p nn, here, miss, ◌>>=◌, moved) run)
      ]
  search_loop-found store accepts (suc (suc k)) p x h q [] (e ∷ es) fuel at nn here l t =
      elim (t.0) [ ]
  search_loop-found store accepts (suc (suc k)) p x h q (c ∷ cs) [] fuel at nn here l t =
      elim (t.0) [ ]

  -- The search finds the first item that is accepted, and moves the iterator only.
  pub search-found :
      (store : Ptr → Option A) (accepts : A → Bool) (h : Heap) (q : Queue) (cs : Cells)
      (es : Entries A)
      → Holds h q cs
      → PointTo store cs es
      → (e : Ptr) × (search store accepts q h ≡ ok (found accepts es, record q { ite = e }) h)
  unfolding search search_loop found iterate PointTo
  search-found store accepts h q [] [] holds t = (q.ite, rw (holds.head, ◌>>=◌, holds.length))
  search-found store accepts h q ((a, d) ∷ cs) ((p, x) ∷ es) holds (same, nn, here, t) =
      let started : iterate q queue_head h ≡ ok (p, record q { ite = first cs }) h =
        iterate-head h q a d cs holds ∙ ap (λ i. ok (i, record q { ite = first cs }) h) same in
      let (e, run) =
        search_loop-found store accepts (q.length + 1) p x h (record q { ite = first cs }) cs es
          (omega (arith, holds.length)) refl nn here holds.linked.3 t in
      (e, rw (◌>>=◌, started) run)
  search-found store accepts h q [] (e ∷ es) holds t = elim (t.0) [ ]
  search-found store accepts h q (c ∷ cs) [] holds t = elim (t.0) [ ]
