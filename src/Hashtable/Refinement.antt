-- ===== src/Hashtable/Refinement.antt =====
-- The hash table behind an abstract map, from a key to the list of its data, oldest first: what the
-- four operations of src/fdmi_hashtable.c make of it. Buckets and the order of nodes are forgotten.
pub mod Calls
use libibtl.Base.{
  ◌<◌, ◌≡◌, ◌≢◌, refl, sym, ap, ◌∙◌, Option, none, some, List, [], ◌∷◌, ◌++◌, arith, ◌==◌,
  if◌then◌else◌, length, get_elem?, set, Bool-cases, Option-cases, inl, inr, length-set,
  get_elem?-set_self, get_elem?-set_ne, lt_of_some, some_of_lt, true, false, some_inj, replicate, ℕ,
  zero, suc,
}
use native.Mathlib.Nat.{mod-lt}
use libibtl.Store.{Ptr, null}
use libibtl.Hashtable.{
  ◌>>=◌, Entry, Bucket, Hashtable, create, hash, bucket, find, replace, delete, add, update,
  content_or_null, get, remove,
}

-- the data of the nodes with a key
pub values : Ptr → Bucket → List Ptr
values k [] = []
values k (e ∷ b) = if e.key == k then e.content ∷ values k b else values k b

abbrev pub Multimap : Type 0
Multimap = Ptr → List Ptr

abbrev pub first : List Ptr → Ptr
first [] = null
first (p ∷ ps) = p

abbrev pub rest : List Ptr → List Ptr
rest [] = []
rest (p ∷ ps) = ps

abbrev pub assign : Ptr → List Ptr → Multimap → Multimap
assign key ps m = λ k. if k == key then ps else m k

-- A call of the table. `freed` is what the memory of the removed node holds after it is freed.
pub data TableCall : Type 0 where
  adds : (key content : Ptr) → TableCall
  updates : (key new : Ptr) → TableCall
  gets : (key : Ptr) → TableCall
  removes : (freed key : Ptr) → TableCall

-- a call, with its result; NULL for fdmi_hashtable_add, which has none
unfoldable pub make_call : TableCall → Hashtable → Option (Ptr × Hashtable)
make_call (adds key content) ht = do ht' ← add ht key content; some (null, ht')
make_call (updates key new) ht = update ht key new
make_call (gets key) ht = do p ← get ht key; some (p, ht)
make_call (removes freed key) ht = remove freed ht key

abbrev pub result_of_remove : (freed : Ptr) → List Ptr → Ptr
result_of_remove freed [] = null
result_of_remove freed (p ∷ ps) = freed

-- what the call means
unfoldable pub call_meaning : TableCall → Multimap → Ptr × Multimap
call_meaning (adds key content) m = (null, assign key (m key ++ content ∷ []) m)
call_meaning (updates key new) m = (first (m key), assign key (new ∷ rest (m key)) m)
call_meaning (gets key) m = (first (m key), m)
call_meaning (removes freed key) m = (result_of_remove freed (m key), assign key (rest (m key)) m)

unfoldable pub make_calls : List TableCall → Hashtable → Option (List Ptr × Hashtable)
unfolding make_call
make_calls [] ht = some ([], ht)
make_calls (op ∷ ops) ht = do
  (p, ht') ← make_call op ht
  (ps, ht'') ← make_calls ops ht'
  some (p ∷ ps, ht'')

unfoldable pub calls_meaning : List TableCall → Multimap → List Ptr × Multimap
unfolding call_meaning
calls_meaning [] m = ([], m)
calls_meaning (op ∷ ops) m =
    let (p, m') = call_meaning op m in let (ps, m'') = calls_meaning ops m' in (p ∷ ps, m'')

-- no key has data
abbrev pub nothing : Multimap
nothing = λ k. []

-- the bucket of every key has the data that the map gives it
pub record Represents (ht : Hashtable) (m : Multimap) : Type 0 where
  pub queues : 0 < length ht
  pub holds : (k : Ptr) (b : Bucket) → get_elem? ht (hash (length ht) k) ≡ some b → values k b ≡ m k

pub find-values :
    (k : Ptr) (b : Bucket) {p : Ptr} → find k b ≡ some p → values k b ≡ p ∷ rest (values k b)
unfolding find values
find-values k [] e = cc
find-values k (x ∷ b) e = elim (Bool-cases (x.key == k)) [
  | inl hit ↦ rw hit (ground (arith, hit))
  | inr miss ↦ rw miss (find-values k b (rw miss at e))
]

pub find-values-none : (k : Ptr) (b : Bucket) → find k b ≡ none → values k b ≡ []
unfolding find values
find-values-none k [] e = refl
find-values-none k (x ∷ b) e = elim (Bool-cases (x.key == k)) [
  | inl hit ↦ (let found : some x.content ≡ none = rw hit at e in cc)
  | inr miss ↦ rw miss (find-values-none k b (rw miss at e))
]

pub values-append :
    (k key content : Ptr) (b : Bucket)
    → values k (b ++ record { key = key; content = content } ∷ [])
      ≡ (if k == key then values key b ++ content ∷ [] else values k b)
unfolding values
values-append k key content [] = ground arith
values-append k key content (e ∷ b) = ground (arith, values-append k key content b)

pub values-replace :
    (k key new : Ptr) (b : Bucket) {old : Ptr}
    → find key b ≡ some old
    → values k (replace key new b) ≡ (if k == key then new ∷ rest (values key b) else values k b)
unfolding values find replace
values-replace k key new [] e = cc
values-replace k key new (x ∷ b) e = elim (Bool-cases (x.key == key)) [
  | inl hit ↦ rw hit (ground (arith, hit))
  | inr miss ↦ rw miss (ground (arith, miss, values-replace k key new b (rw miss at e)))
]

pub values-delete :
    (k key : Ptr) (b : Bucket)
    → values k (delete key b) ≡ (if k == key then rest (values key b) else values k b)
unfolding values delete
values-delete k key [] = ground arith
values-delete k key (x ∷ b) = elim (Bool-cases (x.key == key)) [
  | inl hit ↦ rw hit (ground (arith, hit))
  | inr miss ↦ rw miss (ground (arith, miss, values-delete k key b))
]

-- a write of the bucket of `key` that changes the data of `key` alone
pub set-Represents :
    (ht : Hashtable) (m : Multimap) (key : Ptr) (b b' : Bucket) (ps : List Ptr)
    → Represents ht m
    → get_elem? ht (hash (length ht) key) ≡ some b
    → ((k : Ptr) → values k b' ≡ (if k == key then ps else values k b))
    → Represents (set ht (hash (length ht) key) b') (assign key ps m)
set-Represents ht m key b b' ps r at changed =
    let i = hash (length ht) key in
    let size = length-set ht i b' in
    record {
      queues = rw size r.queues;
      holds = λ k c found. elim (Bool-cases (hash (length ht) k == i)) [
        | inl same ↦
            let e : hash (length ht) k ≡ i = ground (arith, same) in
            let here : get_elem? (set ht i b') i ≡ some c = rw (size, e) at found in
            let is : b' ≡ c =
              some_inj (sym (get_elem?-set_self ht i b' (lt_of_some ht i b at)) ∙ here) in
            let was = r.holds k b (ap (get_elem? ht) e ∙ at) in rw (← is, changed k, was) refl
        | inr other ↦
            let ne : i ≢ hash (length ht) k = ground (arith, other) in
            let differ : k ≢ key = λ z. ne (ap (λ p. hash (length ht) p) (sym z)) in
            let miss : (k == key) ≡ false = ground (arith, differ) in
            let there : get_elem? ht (hash (length ht) k) ≡ some c =
              sym (get_elem?-set_ne ht i _ b' ne) ∙ (rw size at found) in
            rw miss (r.holds k c there)
      ];
    }

pub keep-Represents :
    (ht : Hashtable) (m : Multimap) (key : Ptr) (ps : List Ptr)
    → Represents ht m
    → m key ≡ ps
    → Represents ht (assign key ps m)
keep-Represents ht m key ps r same = record {
  queues = r.queues;
  holds = λ k b at. elim (Bool-cases (k == key)) [
    | inl hit ↦ let e : k ≡ key = ground (arith, hit) in rw hit (r.holds k b at ∙ ap m e ∙ same)
    | inr miss ↦ rw miss (r.holds k b at)
  ];
}
