-- ===== src/Queue/Filter.antt =====
-- The loop with which src/fdmi.c flushes a queue: it goes through the queue with the iterator and
-- removes items on the way.
pub mod Removal
pub mod Kept
use libibtl.Base.{
  ℕ, zero, suc, ◌+◌, ◌<◌, ◌≡◌, refl, ◌≢◌, sym, ap, subst, ◌∙◌, Bool, true, false, Bool-cases,
  Option, none, some, some_inj, inl, inr, List, [], ◌∷◌, ◌++◌, append_assoc, append-nil, arith,
  ◌==◌, ◌||◌, if◌then◌else◌,
}
use libibtl.Base
use libibtl.Store.{Ptr, null, Heap, Cmd, ok, fault, out_of_fuel, pure, ◌>>=◌}
use libibtl.Store.Cells.{Cells, first, has, SameOutside, not_null, has-append}
use libibtl.Queue.{Queue, queue_head, queue_next, iterate, remove}
use libibtl.Queue.Cursor.{holds_item}
use libibtl.Queue.Search.{Entries, PointTo, PointTo-snoc}

module _ {ℓ} {A : Type ℓ} where
  -- The result has the items that were removed, in order.
  unfoldable pub filter_loop :
      (store : Ptr → Option A) (keeps : A → Bool)
      → ℕ
      → (tmp : Ptr) → Queue
      → (removed : List Ptr) → Cmd (Queue × List Ptr)
  filter_loop store keeps zero tmp q removed = λ _. out_of_fuel
  filter_loop store keeps (suc k) tmp q removed =
      if tmp == null then pure (q, removed) else elim (store tmp) [
        | none ↦ (λ _. fault)
        | some x ↦
            if keeps x
            then (do (t, q') ← iterate q queue_next; filter_loop store keeps k t q' removed)
            else (do
              q₁ ← remove q tmp
              (t, q') ← iterate q₁ queue_next
              filter_loop store keeps k t q' (removed ++ tmp ∷ []))
      ]

  unfoldable pub filter :
      (store : Ptr → Option A) (keeps : A → Bool) → Queue → Cmd (Queue × List Ptr)
  unfolding filter_loop
  filter store keeps q = do
    (tmp, q') ← iterate q queue_head
    filter_loop store keeps (q.length + 1) tmp q' []

  unfoldable pub kept : (keeps : A → Bool) → Entries A → Entries A
  kept keeps [] = []
  kept keeps ((p, x) ∷ es) = if keeps x then (p, x) ∷ kept keeps es else kept keeps es

  unfoldable pub dropped_items : (keeps : A → Bool) → Entries A → List Ptr
  dropped_items keeps [] = []
  dropped_items keeps ((p, x) ∷ es) =
      if keeps x then dropped_items keeps es else p ∷ dropped_items keeps es

  unfoldable pub AllKept : (keeps : A → Bool) → Entries A → Type 0
  AllKept keeps [] = Unit
  AllKept keeps ((p, x) ∷ es) = (keeps x ≡ true) × AllKept keeps es

  pub AllKept-snoc :
      (keeps : A → Bool) (es : Entries A) (p : Ptr) (x : A)
      → AllKept keeps es
      → keeps x ≡ true
      → AllKept keeps (es ++ (p, x) ∷ [])
  unfolding AllKept
  AllKept-snoc keeps [] p x all keep = (keep, tt)
  AllKept-snoc keeps (e ∷ es) p x all keep = (all.0, AllKept-snoc keeps es p x all.1 keep)

  -- an item that is not kept is none of those that are
  pub holds_item-kept :
      (store : Ptr → Option A) (keeps : A → Bool) (p : Ptr) (x : A) (ks : Cells) (es : Entries A)
      → PointTo store ks es
      → AllKept keeps es
      → store p ≡ some x
      → keeps x ≡ false
      → holds_item p ks ≡ false
  unfolding PointTo AllKept holds_item
  holds_item-kept store keeps p x [] [] t all at gone = refl
  holds_item-kept store keeps p x ((a, d) ∷ ks) ((p', x') ∷ es) (same, _, here, t) all at gone =
      elim (Bool-cases (d == p)) [
        | inl hit ↦
            let e : p' ≡ p = ground (arith, hit, same) in
            let is : x' ≡ x = some_inj (sym here ∙ ap store e ∙ at) in
            let wrong : true ≡ false = sym all.0 ∙ ap keeps is ∙ gone in cc
        | inr miss ↦ rw miss (holds_item-kept store keeps p x ks es t all.1 at gone)
      ]
  holds_item-kept store keeps p x [] (e ∷ es) t all at gone = elim (t.0) [ ]
  holds_item-kept store keeps p x (c ∷ ks) [] t all at gone = elim (t.0) [ ]
