-- ===== src/Hashtable.antt =====
-- src/fdmi_hashtable.c: an array of queues of nodes. A queue is the list of its items, and a node is
-- found as the first with its key; keys and data are pointers.
pub mod Lookup
pub mod Refinement
pub mod Linked
use libibtl.Base.{
  ℕ, zero, suc, ◌/◌, ◌%◌, Option, none, some, List, [], ◌∷◌, ◌++◌, ◌==◌, if◌then◌else◌, length,
  get_elem?, set, replicate,
}
use libibtl.Store.{Ptr, null}

infixl 5 ◌>>=◌
abbrev pub ◌>>=◌ {ℓ κ} : {A : Type ℓ} {B : Type κ} → Option A → (A → Option B) → Option B
none >>= f = none
some a >>= f = f a

-- struct fdmi_hashtable_node
pub record Entry : Type 0 where
  pub key : Ptr
  pub content : Ptr

abbrev pub Bucket : Type 0
Bucket = List Entry

abbrev pub Hashtable : Type 0
Hashtable = List Bucket

-- fdmi_hashtable_create
unfoldable pub create : ℕ → Hashtable
create len = replicate len []

-- fdmi_hash
unfoldable pub hash : (len key : ℕ) → ℕ
hash len key = key / 16 % len

-- `ht->list[hash]`; a table without queues has none
unfoldable pub bucket : Hashtable → Ptr → Option Bucket
unfolding hash
bucket ht key = get_elem? ht (hash (length ht) key)

-- the loops over a queue: the data of the first node with the key
unfoldable pub find : Ptr → Bucket → Option Ptr
find key [] = none
find key (e ∷ b) = if e.key == key then some e.content else find key b

-- `nd->data = new_data` on that node
unfoldable pub replace : (key new : Ptr) → Bucket → Bucket
replace key new [] = []
replace key new (e ∷ b) =
    if e.key == key then record e { content = new } ∷ b else e ∷ replace key new b

-- fdmi_queue_remove of that node
unfoldable pub delete : Ptr → Bucket → Bucket
delete key [] = []
delete key (e ∷ b) = if e.key == key then b else e ∷ delete key b

-- fdmi_hashtable_add
unfoldable pub add : Hashtable → (key content : Ptr) → Option Hashtable
unfolding bucket
add ht key content = do
  q ← bucket ht key
  some (set ht (hash (length ht) key) (q ++ record { key = key; content = content } ∷ []))

-- fdmi_hashtable_update: the old data, NULL if there was none, and the table
unfoldable pub update : Hashtable → (key new : Ptr) → Option (Ptr × Hashtable)
unfolding bucket find replace add
update ht key new = do
  q ← bucket ht key
  elim (find key q) [
    | some old ↦ some (old, set ht (hash (length ht) key) (replace key new q))
    | none ↦ do ht' ← add ht key new; some (null, ht')
  ]

-- NULL where no node has the key
unfoldable pub content_or_null : Option Ptr → Ptr
content_or_null none = null
content_or_null (some p) = p

-- fdmi_hashtable_get
unfoldable pub get : Hashtable → (key : Ptr) → Option Ptr
unfolding bucket find content_or_null
get ht key = do q ← bucket ht key; some (content_or_null (find key q))

-- fdmi_hashtable_remove: the result is read from the node after it is freed, so it is whatever
-- `freed` the memory holds then
unfoldable pub remove : (freed : Ptr) → Hashtable → (key : Ptr) → Option (Ptr × Hashtable)
unfolding bucket find delete
remove freed ht key = do
  q ← bucket ht key
  elim (find key q) [
    | some p ↦ some (freed, set ht (hash (length ht) key) (delete key q))
    | none ↦ some (null, ht)
  ]
