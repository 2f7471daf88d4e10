-- ===== src/Tests/ProcManRuns.antt =====
-- Ranks that compute, and standby ranks (src/fdmi_proc_man.c).
use libibtl.Base.{ℕ, ◌<◌, ◌≡◌, refl, ◌≢◌, inr, none, some, List, [], ◌∷◌, ◌++◌, arith, get_elem?}
use libibtl.Base.Int.{pos}
use libibtl.ProcMan.{Comm, PrankState, pcompute, pstandby, pfailure, comm_init, update_comm_world}
use libibtl.ProcMan.Update.{Inverse, vtop, ptov}
use libibtl.ProcMan.Update.Shared.{update_comm_world-shared}
use libibtl.ProcMan.Spare.{Ranks, get_next_prank, reallocate, elect, drop, find_standby}
use libibtl.ProcMan.Spare.NextPrank.{Elected, get_next_prank-Elected}
use libibtl.ProcMan.Spare.Realloc.{reallocate-repeats}

-- two ranks compute, and two are standby
abbrev four_states : List PrankState
four_states = pcompute ∷ pcompute ∷ pstandby ∷ pstandby ∷ []

abbrev four : Ranks
four = record { states = four_states; psize = 4; next_prank = 2 }

get_next_prank-Elected_example :
    ((prank : ℕ) (r' : Ranks) → get_next_prank four ≡ some (prank, r') → Elected four prank r')
    × (get_next_prank four ≡ none → (q : ℕ) → q < 4 → get_elem? four_states q ≢ some pstandby)
get_next_prank-Elected_example = get_next_prank-Elected four (omega arith) (omega arith)

update_comm_world-shared_example :
    (c : Comm) × (update_comm_world 2
        (record { failed_offset = 0; failed_range = 1; elected_offset = 3; elected_range = 1 } ∷ [])
        (comm_init 1 4 2).0
      ≡ some c)
    × (vtop c 0 ≡ some (pos 3))
    × (vtop c 3 ≡ some (pos 3))
    × (ptov c 3 ≡ some (pos 0))
    × (¬ Inverse c)
update_comm_world-shared_example =
    update_comm_world-shared 1 4 2 0 3 (omega arith) (omega arith) (omega arith)
      (λ e. omega (arith, e))

-- after the failure of rank 0, and then of rank 1
abbrev one_failed : List PrankState
one_failed = pfailure ∷ pcompute ∷ pstandby ∷ pstandby ∷ []

abbrev two_failed : List PrankState
two_failed = pfailure ∷ pfailure ∷ pstandby ∷ pstandby ∷ []

first_reallocation : reallocate ((0, 1) ∷ []) [] four_states ≡ some ((2, 1) ∷ [], one_failed)
unfolding reallocate
first_reallocation = refl

second_reallocation :
    reallocate ((0, 1) ∷ (1, 1) ∷ []) ((2, 1) ∷ []) one_failed
    ≡ some ((2, 1) ∷ (2, 1) ∷ [], two_failed)
unfolding reallocate
second_reallocation = refl

one_failed-find_standby : find_standby one_failed 0 ≡ some 2
unfolding find_standby
one_failed-find_standby = refl

reallocate-repeats_example :
    ((2, 1) ∷ [] ≡ [] ++ elect 2 (drop 0 ((0, 1) ∷ [])))
    × ((2, 1) ∷ (2, 1) ∷ [] ≡ ((2, 1) ∷ []) ++ elect 2 ((1, 1) ∷ []))
reallocate-repeats_example =
    reallocate-repeats ((0, 1) ∷ []) ((1, 1) ∷ []) [] ((2, 1) ∷ []) ((2, 1) ∷ (2, 1) ∷ [])
      four_states one_failed two_failed 2 (omega arith) first_reallocation second_reallocation
      one_failed-find_standby (inr (omega arith), (inr (omega arith), tt))
