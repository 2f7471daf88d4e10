-- ===== src/Hashtable/Refinement/Calls.antt =====
-- src/fdmi_hashtable.c: each call does to the table what it means for the abstract map, and so does
-- any sequence of calls.
use libibtl.Base.{
  ◌<◌, ◌≡◌, refl, sym, ap, ◌∙◌, some, List, [], ◌∷◌, ◌++◌, length, get_elem?, set, Option-cases,
  inl, inr, some_of_lt, ℕ, zero, suc,
}
use native.Mathlib.Nat.{mod-lt}
use libibtl.Store.{Ptr}
use libibtl.Hashtable.{
  ◌>>=◌, Bucket, Hashtable, create, hash, bucket, find, replace, delete, add, update,
  content_or_null, get, remove,
}
use libibtl.Hashtable.Refinement.{
  values, Multimap, rest, assign, TableCall, adds, updates, gets, removes, make_call, call_meaning,
  make_calls, calls_meaning, nothing, Represents, find-values, find-values-none, values-append,
  values-replace, values-delete, set-Represents, keep-Represents,
}

-- a call on a table with a queue ends, with the result and the change that it means
Implements : TableCall → Hashtable → Multimap → Type 0
Implements op ht m =
    (ht' : Hashtable) × (make_call op ht ≡ some ((call_meaning op m).0, ht'))
    × Represents ht' (call_meaning op m).1

module _ (ht : Hashtable) (m : Multimap) (r : Represents ht m) (key : Ptr) where
  own : (b : Bucket) × (get_elem? ht (hash (length ht) key) ≡ some b)
  unfolding hash
  own = some_of_lt ht (hash (length ht) key) (mod-lt _ r.queues)

  add-Represents :
      (content : Ptr)
      → (ht' : Hashtable) × (add ht key content ≡ some ht')
        × Represents ht' (assign key (m key ++ content ∷ []) m)
  unfolding add bucket
  add-Represents content =
      let (b, at) = own in
      let b' = b ++ record { key = key; content = content } ∷ [] in
      (
        set ht (hash (length ht) key) b',
        rw (at, ◌>>=◌) refl,
        set-Represents ht m key b b' _ r at
            (λ k. rw (← (r.holds key b at)) (values-append k key content b)),
      )

  update-Implements : (new : Ptr) → Implements (updates key new) ht m
  unfolding Implements make_call call_meaning update bucket
  update-Implements new =
      let (b, at) = own in
      let was = r.holds key b at in
      elim (Option-cases (find key b)) [
        | inl absent ↦
            let empty : m key ≡ [] = sym was ∙ find-values-none key b absent in
            let (ht', added, r') = add-Represents new in
            (ht', rw (at, ◌>>=◌, absent, added, empty) refl, rw empty (rw empty at r'))
        | inr (old, found) ↦
            let e : m key ≡ old ∷ rest (m key) = rw (← was) (find-values key b found) in
            (
              set ht (hash (length ht) key) (replace key new b),
              rw (at, ◌>>=◌, found, e) refl,
              set-Represents ht m key b _ _ r at
                  (λ k. rw (← was) (values-replace k key new b found)),
            )
      ]

  get-Implements : Implements (gets key) ht m
  unfolding Implements make_call call_meaning get bucket content_or_null
  get-Implements =
      let (b, at) = own in
      let was = r.holds key b at in
      elim (Option-cases (find key b)) [
        | inl absent ↦
            let empty : m key ≡ [] = sym was ∙ find-values-none key b absent in
            (ht, rw (at, ◌>>=◌, absent, empty) refl, r)
        | inr (old, found) ↦
            let e : m key ≡ old ∷ rest (m key) = rw (← was) (find-values key b found) in
            (ht, rw (at, ◌>>=◌, found, e) refl, r)
      ]

  remove-Implements : (freed : Ptr) → Implements (removes freed key) ht m
  unfolding Implements make_call call_meaning remove bucket
  remove-Implements freed =
      let (b, at) = own in
      let was = r.holds key b at in
      elim (Option-cases (find key b)) [
        | inl absent ↦
            let empty : m key ≡ [] = sym was ∙ find-values-none key b absent in
            (
              ht,
              rw (at, ◌>>=◌, absent, empty) refl,
              keep-Represents ht m key (rest (m key)) r (rw empty refl),
            )
        | inr (old, found) ↦
            let e : m key ≡ old ∷ rest (m key) = rw (← was) (find-values key b found) in
            (
              set ht (hash (length ht) key) (delete key b),
              rw (at, ◌>>=◌, found, e) refl,
              set-Represents ht m key b _ _ r at (λ k. rw (← was) (values-delete k key b)),
            )
      ]

make_call-Implements :
    (op : TableCall) (ht : Hashtable) (m : Multimap) → Represents ht m → Implements op ht m
unfolding Implements make_call call_meaning
make_call-Implements (adds key content) ht m r =
    let (ht', added, r') = add-Represents ht m r key content in (ht', rw (added, ◌>>=◌) refl, r')
make_call-Implements (updates key new) ht m r = update-Implements ht m r key new
make_call-Implements (gets key) ht m r = get-Implements ht m r key
make_call-Implements (removes freed key) ht m r = remove-Implements ht m r key freed

make_calls-Represents :
    (ops : List TableCall) (ht : Hashtable) (m : Multimap)
    → Represents ht m
    → (ht' : Hashtable) × (make_calls ops ht ≡ some ((calls_meaning ops m).0, ht'))
      × Represents ht' (calls_meaning ops m).1
unfolding make_calls calls_meaning Implements
make_calls-Represents [] ht m r = (ht, refl, r)
make_calls-Represents (op ∷ ops) ht m r =
    let (ht₁, made, r₁) = make_call-Implements op ht m r in
    let (ht₂, others, r₂) = make_calls-Represents ops ht₁ _ r₁ in
    (ht₂, rw (made, ◌>>=◌, others) refl, r₂)

length-create : (len : ℕ) → length (create len) ≡ len
unfolding create
length-create zero = refl
length-create (suc len) = ap suc (length-create len)

get_elem?-create : (len i : ℕ) (b : Bucket) → get_elem? (create len) i ≡ some b → b ≡ []
unfolding create
get_elem?-create zero i b e = cc
get_elem?-create (suc len) zero b e = cc
get_elem?-create (suc len) (suc i) b e = get_elem?-create len i b e

create-Represents : (len : ℕ) → 0 < len → Represents (create len) nothing
unfolding values
create-Represents len some_queue = record {
  queues = rw (length-create len) some_queue;
  holds = λ k b at. rw (get_elem?-create len _ b at) refl;
}

-- On a new table of at least one queue, any sequence of calls of fdmi_hashtable_add,
-- fdmi_hashtable_update, fdmi_hashtable_get and fdmi_hashtable_remove ends, and the results are those
-- of a map from each key to the list of its data: an addition appends to the list of its key, an
-- update replaces the first of it and returns that, a read returns the first, and a removal drops it;
-- each of the three returns NULL where the list is empty. A removal from a list that is not
-- empty returns what the memory of the node holds after it is freed.
pub make_calls-calls_meaning :
    (len : ℕ) (ops : List TableCall)
    → 0 < len
    → (ht' : Hashtable) × (make_calls ops (create len) ≡ some ((calls_meaning ops nothing).0, ht'))
make_calls-calls_meaning len ops some_queue =
    let (ht', made, _) =
      make_calls-Represents ops (create len) nothing (create-Represents len some_queue) in
    (ht', made)
