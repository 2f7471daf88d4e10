-- ===== src/ProcMan/Ranks.antt =====
-- The rank maps of a communicator that src/fdmi_proc_man.c makes at the start.
use libibtl.Base.{ℕ, zero, suc, ◌+◌, ◌*◌, ◌<◌, ◌≡◌, refl, ap, ◌∙◌, some, arith, get_elem?, lt→ltb}
use libibtl.Base.Int.{ℤ, pos}
use libibtl.ProcMan.{
  ◌>>=◌, extra, identity_map, comm_init, init_comm_world, comm_dup, read_at, get_prank, get_vrank,
  vtop_chain, ptov_chain,
}

pub get_elem?-identity_map :
    (n i size k : ℕ)
    → k < n
    → i + k < size
    → get_elem? (identity_map n i size) k ≡ some (pos (i + k))
unfolding identity_map
get_elem?-identity_map zero i size k h l = absurd (omega arith)
get_elem?-identity_map (suc n) i size zero h l =
    rw (lt→ltb i size (omega arith)) (ap (λ j. some (pos j)) (omega arith))
get_elem?-identity_map (suc n) i size (suc k) h l =
    get_elem?-identity_map n (suc i) size k (omega arith) (omega arith)
    ∙ ap (λ j. some (pos j)) (omega arith)

-- In the world communicator, and in a copy of it, each rank below `psize` has itself as its physical
-- rank, and the process of that rank finds it as its virtual rank.
pub init_comm_world-rank :
    (counter counter' psize prank rank : ℕ) (any : ℤ)
    → rank < psize
    → let world = init_comm_world counter (comm_init counter psize prank).0 in
      let copy = (comm_dup counter' world.0).0 in
      (get_prank world.0 (pos rank) ≡ some (pos rank))
      × (get_prank copy (pos rank) ≡ some (pos rank))
      × (get_vrank (pos rank) world.0 any ≡ some (pos rank))
      × (get_vrank (pos rank) copy any ≡ some (pos rank))
unfolding vtop_chain ptov_chain get_prank get_vrank read_at comm_dup init_comm_world comm_init
init_comm_world-rank counter counter' psize prank rank any h =
    let at : get_elem? (identity_map (psize * extra) 0 psize) rank ≡ some (pos rank) =
      get_elem?-identity_map (psize * extra) 0 psize rank (omega arith) (omega arith)
      ∙ ap (λ k. some (pos k)) (omega arith) in
    let twice : (get_elem? (identity_map (psize * extra) 0 psize) rank
          >>= (λ r. read_at (identity_map (psize * extra) 0 psize) r >>= some))
        ≡ some (pos rank) =
      rw (at, ◌>>=◌, at) refl in
    let again : (get_elem? (identity_map (psize * extra) 0 psize) rank
          >>= read_at (identity_map (psize * extra) 0 psize))
        ≡ some (pos rank) =
      rw (at, ◌>>=◌, at) refl in
    (twice, twice, again, again)
