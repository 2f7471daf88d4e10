-- ===== src/ProcMan/Spare.antt =====
-- The states of the physical ranks in src/fdmi_proc_man.c, the election of standby ranks, and the
-- failure table of src/fdmi.c that drives it.
pub mod NextPrank
pub mod Realloc
use libibtl.Base.{
  ℕ, zero, suc, ◌+◌, ◌-◌, ◌*◌, ◌/◌, ◌%◌, ◌&&◌, ◌||◌, Bool, true, false, Option, none, some, List,
  [], ◌∷◌, ◌++◌, ltb, leb, if◌then◌else◌, length, get_elem?, set,
}
use libibtl.ProcMan.{◌>>=◌, PrankState, pfailure, pcompute, pstandby, pnothing, extra}

unfoldable pub is_standby : PrankState → Bool
is_standby pstandby = true
is_standby _ = false

unfoldable pub is_failure : PrankState → Bool
is_failure pfailure = true
is_failure _ = false

-- the globals prank_state_list, fdmi_psize and fdmi_next_prank
pub record Ranks : Type 0 where
  pub states : List PrankState
  pub psize : ℕ
  pub next_prank : ℕ

-- the loop of fdmi_proc_man_init, from index `i` on
unfoldable pub init_states : (n i vsize psize : ℕ) → List PrankState
init_states zero i vsize psize = []
init_states (suc n) i vsize psize =
    (if ltb i vsize then pcompute else if ltb i psize then pstandby else pnothing)
    ∷ init_states n (suc i) vsize psize

-- fdmi_proc_man_init, as far as the states go; `numspare * numproc` is at most `psize`
unfoldable pub init_ranks : (psize numspare numproc : ℕ) → Ranks
unfolding init_states
init_ranks psize numspare numproc =
    let vsize = psize - numspare * numproc in
    record { states = init_states (psize * extra) 0 vsize psize; psize = psize; next_prank = vsize }

-- the loop of fdmi_get_next_prank, with `n` rounds left; `none` where it runs off its end
next_loop : (n i : ℕ) → Ranks → Option (ℕ × Ranks)
unfolding is_standby
next_loop zero i r = none
next_loop (suc n) i r =
    let rest = next_loop n (i + 1) r in
    let next = (r.next_prank + i) % r.psize in
    elim (get_elem? r.states next) [
      | none ↦ none
      | some s ↦
          if is_standby s
          then some (next, record r { states = set r.states next pcompute; next_prank = next + 1 })
          else rest
    ]

unfoldable pub get_next_prank : Ranks → Option (ℕ × Ranks)
unfolding next_loop
get_next_prank r = next_loop r.psize 0 r

-- fdmi_rmap_is_standby
unfoldable pub rmap_is_standby : Ranks → ℕ → Option Bool
rmap_is_standby r prank = do s ← get_elem? r.states prank; some (is_standby s)

-- a range of ranks: its offset and its length
abbrev pub Range : Type 0
Range = ℕ × ℕ

-- for (j = offset; j < offset + range; j++) prank_state_list[j] = FDMI_PFAILURE
unfoldable pub mark_range : (n j : ℕ) → List PrankState → Option (List PrankState)
mark_range zero j states = some states
mark_range (suc n) j states =
    let rest = mark_range n (j + 1) (set states j pfailure) in
    if ltb j (length states) then rest else none

unfoldable pub mark_failed : List Range → List PrankState → Option (List PrankState)
unfolding mark_range
mark_failed [] states = some states
mark_failed ((offset, n) ∷ rs) states = do s ← mark_range n offset states; mark_failed rs s

-- while (prank_state_list[++sid] != FDMI_PSTANDBY); from index `i` on
unfoldable pub find_standby : List PrankState → (i : ℕ) → Option ℕ
unfolding is_standby
find_standby [] i = none
find_standby (s ∷ states) i = if is_standby s then some i else find_standby states (i + 1)

-- one range for each failed range that has none
unfoldable pub elect : (sid : ℕ) → List Range → List Range
elect sid [] = []
elect sid ((offset, n) ∷ rs) = (sid, n) ∷ elect (sid + n) rs

unfoldable pub drop {ℓ} : {A : Type ℓ} → ℕ → List A → List A
drop zero xs = xs
drop (suc n) [] = []
drop (suc n) (x ∷ xs) = drop n xs

-- The last loop writes FDMI_PSTANDBY where it stands already, and exits at a failed rank.
unfoldable pub check_range : (n j : ℕ) → List PrankState → Option (List PrankState)
unfolding is_standby is_failure
check_range zero j states = some states
check_range (suc n) j states = do
  s ← get_elem? states j
  if is_failure s
      then none
      else check_range n (j + 1) (if is_standby s then set states j pstandby else states)

unfoldable pub check_elected : List Range → List PrankState → Option (List PrankState)
unfolding check_range
check_elected [] states = some states
check_elected ((offset, n) ∷ rs) states = do s ← check_range n offset states; check_elected rs s

-- fdmi_reallocate_state_listd: the elected ranges and the states afterwards
unfoldable pub reallocate :
    (failed elected : List Range) → List PrankState → Option (List Range × List PrankState)
unfolding mark_failed find_standby elect drop check_elected
reallocate failed elected states = do
  states₁ ← mark_failed failed states
  sid ← find_standby states₁ 0
  let fresh = elect sid (drop (length elected) failed)
  states₂ ← check_elected fresh states₁
  some (elected ++ fresh, states₂)

-- struct fdmi_ft_msg: the failed ranges (`plength` of them) and the elected ones (`elength`)
pub record FtMsg : Type 0 where
  pub failed : List Range
  pub elected : List Range

unfoldable pub in_range : ℕ → List Range → Bool
in_range rank [] = false
in_range rank ((offset, n) ∷ rs) = (leb offset rank && ltb rank (offset + n)) || in_range rank rs

-- fdmi_need_update_ft_msg
unfoldable pub need_update_ft_msg : ℕ → FtMsg → Bool
unfolding in_range
need_update_ft_msg failed_rank m = if in_range failed_rank m.failed then false else true

-- fdmi_can_join: `prank` is in an elected range
unfoldable pub can_join : (prank : ℕ) → FtMsg → Bool
unfolding in_range
can_join prank m = in_range prank m.elected

-- fdmi_update_ft_msg
unfoldable pub update_ft_msg :
    (numproc failed_rank : ℕ) → FtMsg → List PrankState → Option (FtMsg × List PrankState)
unfolding in_range reallocate
update_ft_msg numproc failed_rank m states =
    if in_range failed_rank m.failed then some (m, states) else (do
      let failed = m.failed ++ (failed_rank / numproc * numproc, numproc) ∷ []
      (elected, states') ← reallocate failed m.elected states
      some (record { failed = failed; elected = elected }, states'))
