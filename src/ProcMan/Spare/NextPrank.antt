-- ===== src/ProcMan/Spare/NextPrank.antt =====
-- fdmi_get_next_prank of src/fdmi_proc_man.c: which rank it hands out.
use libibtl.Base.{
  ℕ, zero, suc, ◌+◌, ◌-◌, ◌*◌, ◌/◌, ◌%◌, ◌<◌, ◌≤◌, ◌≡◌, refl, ◌≢◌, sym, ap, subst, ◌∙◌, true, false,
  Option, none, some, arith, Bool-cases, inl, inr, length, get_elem?, set, some_inj,
  get_elem?-set_self, get_elem?-set_ne, lt_of_some, some_of_lt,
}
use native.Mathlib.Nat.{
  mod-lt, add-mod-mod, add-mul-mod_self_left, mod-eq_of_lt, zero-add, div-add-mod,
}
use mathlib.Core.Bool.{false≢true}
use libibtl.ProcMan.{PrankState, pcompute, pstandby, pfailure, pnothing}
use libibtl.ProcMan.Spare.{Ranks, is_standby, next_loop, get_next_prank}

standby_of : (s : PrankState) → is_standby s ≡ true → s ≡ pstandby
unfolding is_standby
standby_of pstandby e = refl
standby_of pfailure e = cc
standby_of pcompute e = cc
standby_of pnothing e = cc

ne_standby : (s : PrankState) → is_standby s ≡ false → s ≢ pstandby
unfolding is_standby
ne_standby s miss e = false≢true (sym miss ∙ ap is_standby e)

-- `prank` was standby and computes now; all other ranks are as they were
pub record Elected (r : Ranks) (prank : ℕ) (r' : Ranks) : Type 0 where
  pub bounded : prank < r.psize
  pub before : get_elem? r.states prank ≡ some pstandby
  pub after : get_elem? r'.states prank ≡ some pcompute
  pub others : (q : ℕ) → q ≢ prank → get_elem? r'.states q ≡ get_elem? r.states q
  pub next_prank : r'.next_prank ≡ prank + 1
  pub psize : r'.psize ≡ r.psize

Elected-here :
    (r : Ranks) (next : ℕ)
    → next < r.psize
    → get_elem? r.states next ≡ some pstandby
    → Elected r next (record r { states = set r.states next pcompute; next_prank = next + 1 })
Elected-here r next bounded at = record {
  bounded = bounded;
  before = at;
  after = get_elem?-set_self r.states next pcompute (lt_of_some r.states next pstandby at);
  others = λ q ne. get_elem?-set_ne r.states next q pcompute (λ e. ne (sym e));
  next_prank = refl;
  psize = refl;
}

-- what a search says: an elected rank, or that no rank it looked at is standby
abbrev pub Searched : ℕ → ℕ → Ranks → Option (ℕ × Ranks) → Type 0
Searched n i r (some (prank, r')) = Elected r prank r'
Searched n i r none =
    (k : ℕ) → k < n → get_elem? r.states ((r.next_prank + (i + k)) % r.psize) ≢ some pstandby

Searched-step :
    (n i : ℕ) (r : Ranks) (o : Option (ℕ × Ranks))
    → get_elem? r.states ((r.next_prank + i) % r.psize) ≢ some pstandby
    → Searched n (i + 1) r o
    → Searched (suc n) i r o
Searched-step n i r (some (prank, r')) ne e = e
Searched-step n i r none ne rest = λ k.
    elim k
      as (λ k.
        k < suc n → get_elem? r.states ((r.next_prank + (i + k)) % r.psize) ≢ some pstandby) [
          | zero ↦ λ h. let e : i + 0 ≡ i = omega arith in rw e ne
          | suc k ↦ λ h. let e : i + suc k ≡ i + 1 + k = omega arith in rw e (rest k (omega arith))
        ]

next_loop-Searched :
    (n i : ℕ) (r : Ranks)
    → 0 < r.psize
    → r.psize ≤ length r.states
    → Searched n i r (next_loop n i r)
unfolding next_loop
next_loop-Searched zero i r pos fits = λ k h. absurd (omega arith)
next_loop-Searched (suc n) i r pos fits =
    let next = (r.next_prank + i) % r.psize in
    let bounded : next < r.psize = omega arith in
    let (s, at) = some_of_lt r.states next (omega arith) in
    elim (Bool-cases (is_standby s)) [
      | inl hit ↦
          rw (next_loop, at, hit) (Elected-here r next bounded (at ∙ ap some (standby_of s hit)))
      | inr miss ↦
          rw (next_loop, at, miss)
            (Searched-step n i r _ (λ e. ne_standby s miss (some_inj (sym at ∙ e)))
              (next_loop-Searched n (i + 1) r pos fits))
    ]

-- going round from `start`, every rank is met
round : (start q p : ℕ) → q < p → (k : ℕ) × (k < p) × ((start + (0 + k)) % p ≡ q)
round start q p h = ((q + p - start % p) % p, mod-lt _ (omega arith), meets)
  where
    turns : start + (q + p - start % p) ≡ q + p * (start / p + 1)
    turns = omega (arith, div-add-mod start p, mod-lt start {m = p} (omega arith))

    meets : (start + (0 + (q + p - start % p) % p)) % p ≡ q
    meets =
        ap (λ k. (start + k) % p) (zero-add _)
        ∙ add-mod-mod start _ p
        ∙ ap (λ k. k % p) turns
        ∙ add-mul-mod_self_left q p (start / p + 1)
        ∙ mod-eq_of_lt h

-- fdmi_get_next_prank turns a standby rank into a computing one and touches no other rank; and if it
-- runs off its end, no rank below `fdmi_psize` is standby. There is at least one such
-- rank, and the state list covers them.
pub get_next_prank-Elected :
    (r : Ranks)
    → 0 < r.psize
    → r.psize ≤ length r.states
    → ((prank : ℕ) (r' : Ranks) → get_next_prank r ≡ some (prank, r') → Elected r prank r')
      × (get_next_prank r ≡ none → (q : ℕ) → q < r.psize → get_elem? r.states q ≢ some pstandby)
unfolding get_next_prank
get_next_prank-Elected r pos fits =
    let found = next_loop-Searched r.psize 0 r pos fits in
    (
      λ prank r' e. subst (Searched r.psize 0 r) e found,
      λ e q bounded at.
          let (k, small, hits) = round r.next_prank q r.psize bounded in
          subst (Searched r.psize 0 r) e found k small (rw hits at),
    )
