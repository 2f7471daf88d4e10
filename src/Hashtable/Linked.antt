-- ===== src/Hashtable/Linked.antt =====
-- src/fdmi_hashtable.c on the linked queues of src/fdmi_queue.c: a bucket is a queue whose nodes point
-- to the entries. `store` has the entries that are allocated, and `hts` is `ht->list`.
use libibtl.Base.{
  ◌⊎◌, ◌≡◌, refl, ◌≢◌, sym, ap, ◌∙◌, Bool, true, false, Bool-cases, Option, none, some, some_inj,
  inl, inr, [], ◌∷◌, arith, ◌==◌, if◌then◌else◌, subst,
}
use libibtl.Store.{Ptr, null, Heap, Cmd, fault, pure, ok, ◌>>=◌}
use libibtl.Store.Cells.{Cells, SameOutside, not_null}
use libibtl.Store.Returns
use libibtl.Store.Returns.{Returns}
use libibtl.Queue.{Queue, remove}
use libibtl.Queue.Holds.{Holds}
use libibtl.Queue.Remove.{erase, Removes, remove-Removes}
use libibtl.Queue.Search.{search, search-found, Entries, PointTo, found, drop_entry, PointTo-erase}
use libibtl.Engine.Matching.{All}
use libibtl.Hashtable.{Entry, Bucket, find, delete, content_or_null}

-- the test of the loops
unfoldable pub has_key : Ptr → Entry → Bool
has_key key e = e.key == key

-- fdmi_hashtable_get on the queue of the key
unfoldable pub get_linked : (store : Ptr → Option Entry) (key : Ptr) → Queue → Cmd (Ptr × Queue)
unfolding has_key
get_linked store key q = do
  (nd, q') ← search store (has_key key) q
  if nd == null
      then pure (null, q')
      else elim (store nd) [ none ↦ (λ _. fault) | some e ↦ pure (e.content, q') ]

-- fdmi_free of a node
unfoldable pub free_node : Ptr → (store : Ptr → Option Entry) → (Ptr → Option Entry)
free_node nd store p = if p == nd then none else store p

-- fdmi_hashtable_remove on the queue of the key: the result, and which nodes are allocated then. The
-- data is read from the node after it is freed, so it is whatever `freed` the memory holds then.
unfoldable pub remove_linked :
    (freed : Ptr) (store : Ptr → Option Entry) (key : Ptr)
    → Queue
    → Cmd (Ptr × (Ptr → Option Entry) × Queue)
unfolding has_key free_node
remove_linked freed store key q = do
  (nd, q₁) ← search store (has_key key) q
  if nd == null
      then pure (null, store, q₁)
      else (do q₂ ← remove q₁ nd; pure (freed, free_node nd store, q₂))

unfoldable pub bucket_of : Entries Entry → Bucket
bucket_of [] = []
bucket_of ((p, e) ∷ es) = e ∷ bucket_of es

-- what the search finds: no node, or one that is allocated with the key
Hit : (store : Ptr → Option Entry) (key : Ptr) → Entries Entry → Type 0
Hit store key es =
    ((found (has_key key) es ≡ null) × (find key (bucket_of es) ≡ none))
    ⊎ ((e : Entry) × (found (has_key key) es ≢ null)
        × (store (found (has_key key) es) ≡ some e)
        × ((e.key == key) ≡ true)
        × (find key (bucket_of es) ≡ some e.content))

found-Hit :
    (store : Ptr → Option Entry) (key : Ptr) (cs : Cells) (es : Entries Entry)
    → PointTo store cs es
    → Hit store key es
unfolding Hit found find has_key bucket_of PointTo
found-Hit store key [] [] t = inl (refl, refl)
found-Hit store key (c ∷ cs) ((p, x) ∷ es) (_, nn, at, t) = elim (Bool-cases (x.key == key)) [
  | inl hit ↦ rw hit (inr (x, nn, at, hit, refl))
  | inr miss ↦ rw miss (found-Hit store key cs es t)
]
found-Hit store key [] (e ∷ es) t = elim (t.0) [ ]
found-Hit store key (c ∷ cs) [] t = elim (t.0) [ ]

-- the first node with the key is the first one at its address
drop_entry-delete :
    (store : Ptr → Option Entry) (key p : Ptr) (e : Entry) (cs : Cells) (es : Entries Entry)
    → PointTo store cs es
    → store p ≡ some e
    → (e.key == key) ≡ true
    → found (has_key key) es ≡ p
    → bucket_of (drop_entry p es) ≡ delete key (bucket_of es)
unfolding found has_key bucket_of drop_entry delete PointTo
drop_entry-delete store key p e [] [] t at hit is = refl
drop_entry-delete store key p e (c ∷ cs) ((p', x) ∷ es) (_, nn, here, t) at hit is =
    elim (Bool-cases (x.key == key)) [
      | inl first ↦ let same : (p' == p) ≡ true = ground (arith, first, is) in rw (same, first) refl
      | inr later ↦ elim (Bool-cases (p' == p)) [
        | inl same ↦
            let q : p' ≡ p = ground (arith, same) in
            let of : x ≡ e = some_inj (sym here ∙ ap store q ∙ at) in
            let wrong : false ≡ true = sym later ∙ ap (λ y. y.key == key) of ∙ hit in cc
        | inr differ ↦
            rw (differ, later)
              (ap (λ l. x ∷ l) (drop_entry-delete store key p e cs es t at hit (rw later at is)))
      ]
    ]
drop_entry-delete store key p e [] (x ∷ es) t at hit is = elim (t.0) [ ]
drop_entry-delete store key p e (c ∷ cs) [] t at hit is = elim (t.0) [ ]

delete_missing :
    (store : Ptr → Option Entry) (key : Ptr) (cs : Cells) (es : Entries Entry)
    → PointTo store cs es
    → find key (bucket_of es) ≡ none
    → delete key (bucket_of es) ≡ bucket_of es
unfolding find delete bucket_of PointTo
delete_missing store key [] [] t none_found = refl
delete_missing store key (c ∷ cs) ((p, x) ∷ es) (_, _, _, t) none_found =
    elim (Bool-cases (x.key == key)) [
      | inl hit ↦ (let wrong : some x.content ≡ none = rw hit at none_found in cc)
      | inr miss ↦
          rw miss (ap (λ l. x ∷ l) (delete_missing store key cs es t (rw miss at none_found)))
    ]
delete_missing store key [] (e ∷ es) t none_found = elim (t.0) [ ]
delete_missing store key (c ∷ cs) [] t none_found = elim (t.0) [ ]

-- each node is an allocation of its own
unfoldable pub Distinct : Entries Entry → Type 0
Distinct [] = Unit
Distinct ((p, x) ∷ es) = All (λ e. e.0 ≢ p) es × Distinct es

-- a node that is in no cell can be freed
PointTo-free_node :
    (store : Ptr → Option Entry) (nd : Ptr) (cs : Cells) (es : Entries Entry)
    → PointTo store cs es
    → All (λ e. e.0 ≢ nd) es
    → PointTo (free_node nd store) cs es
unfolding PointTo free_node
PointTo-free_node store nd [] [] t others = tt
PointTo-free_node store nd (c ∷ cs) ((p, x) ∷ es) (same, nn, at, t) (differs, others) =
    let other : (p == nd) ≡ false = ground (arith, differs) in
    (same, nn, rw other at, PointTo-free_node store nd cs es t others)
PointTo-free_node store nd [] (e ∷ es) t others = elim (t.0) [ ]
PointTo-free_node store nd (c ∷ cs) [] t others = elim (t.0) [ ]

-- the node whose cell is erased is in no other cell
drop_entry-All :
    (nd : Ptr) (es : Entries Entry) → Distinct es → All (λ e. e.0 ≢ nd) (drop_entry nd es)
unfolding Distinct drop_entry
drop_entry-All nd [] d = tt
drop_entry-All nd ((p, x) ∷ es) (others, d) = elim (Bool-cases (p == nd)) [
  | inl hit ↦
      let is : p ≡ nd = ground (arith, hit) in rw hit (subst (λ a. All (λ e. e.0 ≢ a) es) is others)
  | inr miss ↦ rw miss (ground (arith, miss), drop_entry-All nd es d)
]

-- a queue that is left with the nodes of a bucket
pub record IsBucket (store : Ptr → Option Entry) (h : Heap) (cs : Cells) (b : Bucket) (q : Queue)
    (g : Heap) : Type 0 where
  pub cells : Cells
  pub entries : Entries Entry
  pub holds : Holds g q cells
  pub points : PointTo store cells entries
  pub contents : bucket_of entries ≡ b
  pub same : SameOutside cs h g

Holds-ite :
    (h : Heap) (q : Queue) (cs : Cells) (ite : Ptr)
    → Holds h q cs
    → Holds h (record q { ite = ite }) cs
Holds-ite h q cs ite holds = record {
  head = holds.head;
  tail = holds.tail;
  length = holds.length;
  linked = holds.linked;
}

-- what a removal does to the result and to the nodes that are allocated
abbrev pub Removed :
    (freed key : Ptr) (store : Ptr → Option Entry)
    → Bucket
    → (result : Ptr) → (Ptr → Option Entry)
    → Type 0
Removed freed key store b result store' =
    ((result ≡ null) × (find key b ≡ none) × (store' ≡ store))
    ⊎ ((nd : Ptr) × (e : Entry) × (result ≡ freed)
        × (store nd ≡ some e)
        × ((e.key == key) ≡ true)
        × (find key b ≡ some e.content)
        × (store' ≡ free_node nd store))

-- On a linked queue whose nodes point to the entries of a bucket, each an allocation of its own, a read
-- of a key ends without a fault with what it finds in the list, and moves the iterator only. A removal
-- ends without a fault. Where the list has no entry of the key, its result is NULL and no node is freed;
-- else one node is freed, which has the key and what the list has for it, and the result is what the
-- memory of that node holds afterwards. The queue is left with nodes that are allocated and point to the
-- entries of the list without the first one of the key, and all other queues' nodes are as they were.
pub remove_linked-delete :
    (freed : Ptr) (store : Ptr → Option Entry) (key : Ptr) (h : Heap) (q : Queue) (cs : Cells)
    (es : Entries Entry)
    → Holds h q cs
    → PointTo store cs es
    → Distinct es
    → ((ite : Ptr) × (get_linked store key q h
          ≡ ok (content_or_null (find key (bucket_of es)), record q { ite = ite }) h))
      × Returns
          (λ (result, store', q') g.
            Removed freed key store (bucket_of es) result store'
            × IsBucket store' h cs (delete key (bucket_of es)) q' g)
          (remove_linked freed store key q h)
unfolding get_linked remove_linked Hit content_or_null
remove_linked-delete freed store key h q cs es holds t distinct =
    let nd = found (has_key key) es in
    let (ite, run) = search-found store (has_key key) h q cs es holds t in
    elim (found-Hit store key cs es t) [
      | inl (missing, none_found) ↦ (
        (ite, rw (◌>>=◌, run, missing, none_found) refl),
        rw (◌>>=◌, run, missing)
            (
              inl (refl, none_found, refl),
              record {
                cells = cs;
                entries = es;
                holds = Holds-ite h q cs ite holds;
                points = t;
                contents = sym (delete_missing store key cs es t none_found);
                same = λ a out. refl;
              },
            ),
      )
      | inr (e, nn, at, hit, is) ↦ (
        (ite, rw (◌>>=◌, run, not_null _ nn, at, is) refl),
        rw (◌>>=◌, run, not_null _ nn)
            (Returns.bind (Removes nd h cs (record q { ite = ite })) _ _ _
              (remove-Removes nd h (record q { ite = ite }) cs (Holds-ite h q cs ite holds))
              (λ q' g r. (
                inr (nd, e, refl, at, hit, is, refl),
                record {
                  cells = erase nd cs;
                  entries = drop_entry nd es;
                  holds = r.holds;
                  points =
                      PointTo-free_node store nd (erase nd cs) (drop_entry nd es)
                        (PointTo-erase store nd cs es t) (drop_entry-All nd es distinct);
                  contents = drop_entry-delete store key nd e cs es t at hit refl;
                  same = r.same;
                },
              ))),
      )
    ]
