-- ===== src/ProcMan/Itop.antt =====
-- src/fdmi_proc_man.c, the ranks of connections: the table hstb_itop, from the identifiers of the
-- connection manager to physical ranks, which are kept in place of pointers.
use libibtl.Base.{
  ℕ, ◌^◌, ◌<◌, ◌≡◌, refl, Option, none, some, [], ◌∷◌, ◌++◌, arith, ◌==◌, length, length-set,
  Bool-cases, inl, inr, true, get_elem?, set, some_of_lt, if◌then◌else◌,
}
use native.Mathlib.Nat.{mod-lt}
use libibtl.Base.Int.{ℤ, pos, to_int, to_u64}
use libibtl.Store.{Ptr}
use libibtl.Hashtable.{◌>>=◌, Bucket, Hashtable, hash, bucket, find, add, get}
use libibtl.Hashtable.Lookup.{find-append, get-set}

-- fdmi_rmap_itop_add
unfoldable pub rmap_itop_add : (id : Ptr) (prank : ℤ) → Hashtable → Option Hashtable
unfolding add
rmap_itop_add id prank itop = add itop id (to_u64 prank)

-- fdmi_rmap_itop_get: rank 0 for an identifier that is not there
unfoldable pub rmap_itop_get : (id : Ptr) → Hashtable → Option ℤ
unfolding get
rmap_itop_get id itop = do p ← get itop id; some (to_int p)

-- no entry has the key
abbrev pub Absent : Hashtable → Ptr → Type 0
Absent itop id = (b : Bucket) → get_elem? itop (hash (length itop) id) ≡ some b → find id b ≡ none

eq_refl : (n : ℕ) → (n == n) ≡ true
eq_refl n = ground arith

-- A connection that is entered under an identifier that is not there yet is found by it, under the rank
-- that it was entered with, and what is found for each other identifier stays as it was.
pub rmap_itop_add-rmap_itop_get :
    (itop : Hashtable) (id : Ptr) (prank : ℕ)
    → 0 < length itop
    → prank < 2 ^ 31
    → Absent itop id
    → (itop' : Hashtable) × (rmap_itop_add id (pos prank) itop ≡ some itop')
      × (length itop' ≡ length itop)
      × (rmap_itop_get id itop' ≡ some (pos prank))
      × ((other : Ptr)
          → rmap_itop_get other itop'
            ≡ (if other == id then some (pos prank) else rmap_itop_get other itop))
unfolding rmap_itop_add rmap_itop_get add bucket
rmap_itop_add-rmap_itop_get itop id prank some_queue small absent =
    let i = hash (length itop) id in
    let (b, at) = some_of_lt itop i (mod-lt _ some_queue) in
    let b' = b ++ record { key = id; content = prank } ∷ [] in
    let found : (k : Ptr) → get (set itop i b') k ≡ (if k == id then some prank else get itop k) =
      λ k. get-set itop id prank k b b' at (λ k. find-append id prank k b (absent b at)) in
    let same : to_int prank ≡ pos prank = ground (arith, small) in
    (
      set itop i b',
      rw (at, ◌>>=◌) refl,
      length-set itop i b',
      rw (found id, eq_refl id, ◌>>=◌, same) refl,
      λ other. elim (Bool-cases (other == id)) [
        | inl hit ↦ rw (found other, hit, ◌>>=◌, same) refl
        | inr miss ↦ rw (found other, miss) refl
      ],
    )
