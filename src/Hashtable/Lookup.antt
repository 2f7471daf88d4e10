-- ===== src/Hashtable/Lookup.antt =====
-- What fdmi_hashtable_get finds after fdmi_hashtable_update.
use libibtl.Base.{
  ◌<◌, ◌≡◌, ◌≢◌, refl, sym, ap, false, none, some, [], ◌∷◌, ◌++◌, arith, ◌==◌, if◌then◌else◌,
  length, get_elem?, set, Bool-cases, Option-cases, inl, inr, length-set, get_elem?-set_self,
  get_elem?-set_ne, lt_of_some, some_of_lt,
}
use native.Mathlib.Nat.{mod-lt}
use libibtl.Store.{Ptr, null}
use libibtl.Hashtable.{
  ◌>>=◌, Bucket, Hashtable, hash, bucket, find, replace, add, update, content_or_null, get,
}

find-replace :
    (key new old k : Ptr) (b : Bucket)
    → find key b ≡ some old
    → find k (replace key new b) ≡ (if k == key then some new else find k b)
unfolding find replace
find-replace key new old k [] e = cc
find-replace key new old k (x ∷ b) e = elim (Bool-cases (x.key == key)) [
  | inl hit ↦ rw hit (ground (arith, hit))
  | inr miss ↦ rw miss (ground (arith, miss, find-replace key new old k b (rw miss at e)))
]

pub find-append :
    (key new k : Ptr) (b : Bucket)
    → find key b ≡ none
    → find k (b ++ record { key = key; content = new } ∷ [])
      ≡ (if k == key then some new else find k b)
unfolding find
find-append key new k [] e = ground arith
find-append key new k (x ∷ b) e = elim (Bool-cases (x.key == key)) [
  | inl hit ↦ (let found : some x.content ≡ none = rw hit at e in cc)
  | inr miss ↦ ground (arith, miss, find-append key new k b (rw miss at e))
]

-- the new bucket answers for `key`, and as before for the other keys
abbrev pub Answers : (key new : Ptr) (b b' : Bucket) → Type 0
Answers key new b b' = (k : Ptr) → find k b' ≡ (if k == key then some new else find k b)

pub get-set :
    (ht : Hashtable) (key new k : Ptr) (b b' : Bucket)
    → get_elem? ht (hash (length ht) key) ≡ some b
    → Answers key new b b'
    → get (set ht (hash (length ht) key) b') k ≡ (if k == key then some new else get ht k)
unfolding get bucket content_or_null
get-set ht key new k b b' at ans =
    let i = hash (length ht) key in
    let j = hash (length ht) k in
    let size = length-set ht i b' in
    elim (Bool-cases (j == i)) [
      | inl same ↦
          let e : j ≡ i = ground (arith, same) in
          rw (size, e, get_elem?-set_self ht i b' (lt_of_some ht i b at), at, ◌>>=◌, ans k)
            (elim (Bool-cases (k == key)) [ inl hit ↦ rw hit refl | inr miss ↦ rw miss refl ])
      | inr other ↦
          let ne : i ≢ j = ground (arith, other) in
          let differ : k ≢ key = λ z. ne (ap (λ p. hash (length ht) p) (sym z)) in
          let miss : (k == key) ≡ false = ground (arith, differ) in
          rw (size, get_elem?-set_ne ht i j b' ne, miss) refl
    ]

-- On a table with at least one queue, fdmi_hashtable_update ends, returns what fdmi_hashtable_get gave
-- for the key before, and from then on that gives the new data for the key and what it gave before
-- for every other key.
pub update-get :
    (ht : Hashtable) (key new : Ptr)
    → 0 < length ht
    → (old : Ptr) × (ht' : Hashtable) × (update ht key new ≡ some (old, ht'))
      × (get ht key ≡ some old)
      × ((k : Ptr) → get ht' k ≡ (if k == key then some new else get ht k))
unfolding update add get bucket hash content_or_null
update-get ht key new pos =
    let i = hash (length ht) key in
    let (b, at) = some_of_lt ht i (mod-lt _ pos) in
    elim (Option-cases (find key b)) [
      | inl absent ↦
          let b' = b ++ record { key = key; content = new } ∷ [] in
          (
            null,
            set ht i b',
            rw (at, ◌>>=◌, absent, at) refl,
            rw (at, ◌>>=◌, absent) refl,
            λ k. get-set ht key new k b b' at (λ k. find-append key new k b absent),
          )
      | inr (old, found) ↦
          let b' = replace key new b in
          (
            old,
            set ht i b',
            rw (at, ◌>>=◌, found) refl,
            rw (at, ◌>>=◌, found) refl,
            λ k. get-set ht key new k b b' at (λ k. find-replace key new old k b found),
          )
    ]
