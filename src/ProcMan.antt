-- ===== src/ProcMan.antt =====
-- src/fdmi_proc_man.c: communicators and their rank maps, and the states of the physical ranks. The
-- global arrays and counters are passed along; an index outside an array is a fault, `none`.
pub mod Ranks
pub mod Itop
pub mod Update
pub mod Spare
use libibtl.Base.{
  ℕ, zero, suc, ◌+◌, ◌-◌, ◌*◌, ◌%◌, ◌&&◌, ◌||◌, Bool, true, false, Option, none, some, List, [],
  ◌∷◌, ltb, ◌==◌, if◌then◌else◌, length, get_elem?, set, replicate,
}
use libibtl.Base.Int.{ℤ, pos, negsuc, minus_one}

infixl 5 ◌>>=◌
abbrev pub ◌>>=◌ {ℓ κ} : {A : Type ℓ} {B : Type κ} → Option A → (A → Option B) → Option B
none >>= f = none
some a >>= f = f a

pub data PrankState : Type 0 where
  pfailure pcompute pstandby pnothing : PrankState

-- reads and writes of an `int` array at an `int` index
unfoldable pub read_at {ℓ} : {A : Type ℓ} → List A → ℤ → Option A
read_at xs (pos i) = get_elem? xs i
read_at xs (negsuc i) = none

unfoldable pub write_at {ℓ} : {A : Type ℓ} → List A → ℤ → A → Option (List A)
write_at xs (pos i) a = if ltb i (length xs) then some (set xs i a) else none
write_at xs (negsuc i) a = none

-- struct fdmi_communicator, without the pointer to the parent
pub record Comm : Type 0 where
  pub id : ℕ
  pub vrank : ℤ
  pub psize : ℕ
  pub comm_size : ℕ
  pub rmap_ptov_size : ℕ
  pub rmap_ptov : List ℤ
  pub rmap_vtop_size : ℕ
  pub rmap_vtop : List ℤ

-- A communicator with its parents, from itself to the root.
abbrev pub Communicator : Type 0
Communicator = Comm × List Comm

abbrev pub extra : ℕ
extra = 2

-- the table `i ↦ (i < comm_size) ? i : -1` from index `i` on, `n` entries long
unfoldable pub identity_map : (n i comm_size : ℕ) → List ℤ
identity_map zero i comm_size = []
identity_map (suc n) i comm_size =
    (if ltb i comm_size then pos i else minus_one) ∷ identity_map n (suc i) comm_size

-- fdmi_proc_man_comm_init: `counter` is comm_id_counter, and is returned with the new master
unfoldable pub comm_init : (counter psize : ℕ) (prank : ℕ) → Comm × ℕ
comm_init counter psize prank = (
  record {
    id = counter;
    vrank = if ltb prank psize then pos prank else minus_one;
    psize = psize;
    comm_size = psize;
    rmap_ptov_size = psize * extra;
    rmap_ptov = identity_map (psize * extra) 0 psize;
    rmap_vtop_size = psize * extra;
    rmap_vtop = identity_map (psize * extra) 0 psize;
  },
  counter + 1,
)

-- fdmi_init_comm_world: a child of the master
unfoldable pub init_comm_world : (counter : ℕ) (comm_master : Comm) → Communicator × ℕ
init_comm_world counter m = (
  (
    record {
      id = counter;
      vrank = m.vrank;
      psize = m.psize;
      comm_size = m.comm_size;
      rmap_ptov_size = m.rmap_ptov_size;
      rmap_ptov = identity_map m.rmap_ptov_size 0 m.comm_size;
      rmap_vtop_size = m.rmap_vtop_size;
      rmap_vtop = identity_map m.rmap_vtop_size 0 m.comm_size;
    },
    m ∷ [],
  ),
  counter + 1,
)

-- fdmi_verbs_comm_dup: the same parent and copies of the maps
unfoldable pub comm_dup : (counter : ℕ) → Communicator → Communicator × ℕ
comm_dup counter (c, parents) = ((record c { id = counter }, parents), counter + 1)

-- the loop of fdmi_comm_get_prank, up the chain
unfoldable pub vtop_chain : List Comm → ℤ → Option ℤ
unfolding read_at
vtop_chain [] rank = some rank
vtop_chain (c ∷ cs) rank = do r ← read_at c.rmap_vtop rank; vtop_chain cs r

-- fdmi_comm_get_prank; -1, any source, stays
unfoldable pub get_prank : Communicator → ℤ → Option ℤ
unfolding vtop_chain
get_prank (c, parents) (negsuc zero) = some minus_one
get_prank (c, parents) vrank = vtop_chain (c ∷ parents) vrank

-- the loop of fdmi_comm_get_vrank, from the root down
unfoldable pub ptov_chain : List Comm → ℤ → Option ℤ
unfolding read_at
ptov_chain [] rank = some rank
ptov_chain (c ∷ cs) rank = do r ← ptov_chain cs rank; read_at c.rmap_ptov r

-- fdmi_comm_get_vrank: it starts from `fdmi_prank`, and does not use its argument `prank`
unfoldable pub get_vrank : (fdmi_prank : ℤ) → Communicator → (prank : ℤ) → Option ℤ
unfolding ptov_chain
get_vrank fdmi_prank (c, parents) prank = ptov_chain (c ∷ parents) fdmi_prank

-- the mark of a failed rank in `rmap_ptov`
abbrev pub lost : ℤ
lost = negsuc 1

unfoldable pub is_lost : ℤ → Bool
is_lost (negsuc (suc zero)) = true
is_lost _ = false

-- the body of the inner loop of fdmi_update_comm_world: rank `f` is replaced by `e`
unfoldable pub replace_rank : (f e : ℕ) → Comm → Option Comm
unfolding read_at write_at is_lost
replace_rank f e c = do
  vrank ← read_at c.rmap_ptov (pos f)
  if is_lost vrank then some c else (do
    vtop ← write_at c.rmap_vtop vrank (pos e)
    ptov₁ ← write_at c.rmap_ptov (pos e) vrank
    ptov₂ ← write_at ptov₁ (pos f) lost
    some (record c { rmap_vtop = vtop; rmap_ptov = ptov₂ }))

-- the inner loop: `n` is the smaller of the two ranges
unfoldable pub replace_ranks : (n f e : ℕ) → Comm → Option Comm
unfolding replace_rank
replace_ranks zero f e c = some c
replace_ranks (suc n) f e c = do c' ← replace_rank f e c; replace_ranks n (f + 1) (e + 1) c'

-- a failed range and the range that was elected for it
pub record Election : Type 0 where
  pub failed_offset : ℕ
  pub failed_range : ℕ
  pub elected_offset : ℕ
  pub elected_range : ℕ

unfoldable pub replace_all : List Election → Comm → Option Comm
unfolding replace_ranks
replace_all [] c = some c
replace_all (x ∷ xs) c = do
  c' ←
      replace_ranks (if ltb x.elected_range x.failed_range then x.elected_range else x.failed_range)
        x.failed_offset x.elected_offset c
  replace_all xs c'

-- fdmi_update_comm_world on fdmi_comm_master_elect
unfoldable pub update_comm_world : (fdmi_prank : ℕ) → List Election → Comm → Option Comm
unfolding replace_all read_at
update_comm_world fdmi_prank elections comm = do
  c ← replace_all elections comm
  v ← read_at c.rmap_ptov (pos fdmi_prank)
  some (record c { vrank = v })
