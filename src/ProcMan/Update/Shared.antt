-- ===== src/ProcMan/Update/Shared.antt =====
-- The first election on the communicator that fdmi_proc_man_comm_init makes, in which the standby ranks
-- have virtual ranks already.
use libibtl.Base.{
  ℕ, ◌*◌, ◌<◌, ◌≡◌, refl, ◌≢◌, sym, ap, ◌∙◌, some, [], ◌∷◌, arith, get_elem?, set, some_inj,
  get_elem?-set_self, get_elem?-set_ne, lt_of_some, length-set, lt→ltb, List, some_of_lt,
}
use libibtl.Base.Int.{ℤ, pos}
use libibtl.ProcMan.{
  ◌>>=◌, Comm, extra, identity_map, comm_init, lost, is_lost, read_at, write_at, replace_rank,
  replace_ranks, replace_all, update_comm_world,
}
use libibtl.ProcMan.Ranks.{get_elem?-identity_map}
use libibtl.ProcMan.Update.{Inverse, pos_inj, ptov, vtop}

-- the map of a new master communicator
abbrev ids : ℕ → List ℤ
ids psize = identity_map (psize * extra) 0 psize

ids-at : (psize k : ℕ) → k < psize → get_elem? (ids psize) k ≡ some (pos k)
ids-at psize k h =
    get_elem?-identity_map (psize * extra) 0 psize k (omega arith) (omega arith)
    ∙ ap (λ j. some (pos j)) (omega arith)

-- what the replacement of `f` by `e` makes of the maps
abbrev shared : (psize f e : ℕ) → Comm → Comm
shared psize f e c = record c {
  rmap_vtop = set (ids psize) f (pos e);
  rmap_ptov = set (set (ids psize) e (pos f)) f lost;
}

replace_rank-shared :
    (counter psize prank f e : ℕ)
    → f < psize
    → e < psize
    → let c = (comm_init counter psize prank).0 in replace_rank f e c ≡ some (shared psize f e c)
unfolding replace_rank read_at write_at is_lost comm_init
replace_rank-shared counter psize prank f e hf he =
    let at = ids-at psize f hf in
    let in_f = lt_of_some _ f _ at in
    let in_e = lt_of_some _ e _ (ids-at psize e he) in
    let size = length-set (ids psize) e (pos f) in
    rw (at, lt→ltb _ _ in_f, lt→ltb _ _ in_e, ◌>>=◌, size, lt→ltb _ _ in_f) refl

-- On a new master communicator, the election of one rank `e` for another rank `f`, both below `psize`,
-- is done, and then both virtual ranks `f` and `e` are the physical rank `e`, whose virtual rank is
-- `f`: the two maps do not say the same any longer.
pub update_comm_world-shared :
    (counter psize prank f e : ℕ)
    → prank < psize
    → f < psize
    → e < psize
    → f ≢ e
    → (c : Comm) × (update_comm_world prank
          (record { failed_offset = f; failed_range = 1; elected_offset = e; elected_range = 1 }
            ∷ [])
          (comm_init counter psize prank).0
        ≡ some c)
      × (vtop c f ≡ some (pos e))
      × (vtop c e ≡ some (pos e))
      × (ptov c e ≡ some (pos f))
      × (¬ Inverse c)
unfolding update_comm_world replace_all replace_ranks comm_init read_at
update_comm_world-shared counter psize prank f e hp hf he apart =
    let c = shared psize f e (comm_init counter psize prank).0 in
    let done = replace_rank-shared counter psize prank f e hf he in
    let in_f = lt_of_some _ f _ (ids-at psize f hf) in
    let in_e = lt_of_some _ e _ (ids-at psize e he) in
    let size = length-set (ids psize) e (pos f) in
    let sizes = length-set (set (ids psize) e (pos f)) f lost in
    let in_prank = lt_of_some _ prank _ (ids-at psize prank hp) in
    let (v, at) = some_of_lt c.rmap_ptov prank (omega (arith, size, sizes, in_prank)) in
    let elected_ptov : get_elem? c.rmap_ptov e ≡ some (pos f) =
      get_elem?-set_ne _ f e lost apart ∙ get_elem?-set_self (ids psize) e (pos f) in_e in
    let elected_vtop : get_elem? c.rmap_vtop e ≡ some (pos e) =
      get_elem?-set_ne _ f e (pos e) apart ∙ ids-at psize e he in
    (
      record c { vrank = v },
      rw (done, ◌>>=◌, at) refl,
      get_elem?-set_self (ids psize) f (pos e) in_f,
      elected_vtop,
      elected_ptov,
      λ inv. apart (pos_inj (some_inj (sym elected_ptov ∙ inv.back e e elected_vtop))),
    )
