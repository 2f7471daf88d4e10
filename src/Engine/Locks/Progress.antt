-- ===== src/Engine/Locks/Progress.antt =====
-- The threads of src/fdmi.c: a thread that waits for a mutex waits for one that gets further, and a
-- step keeps the order in which the mutexes are taken.
use libibtl.Base.{
  ℕ, zero, suc, ◌+◌, ◌<◌, ◌≤◌, ◌≡◌, refl, ap, subst, ◌∙◌, true, false, Option, none, some, List, [],
  ◌∷◌, arith, get_elem?, set, length, inl, inr, Bool-cases, some_inj, get_elem?-set,
}
use libibtl.Engine.Locks.{
  Mutex, aq, pq, free_query_q, reg_mr_q, locked_request_sem_q, send_req_q, failed_prank_q,
  disconnected_prank_q, Action, acquire, release,
}
use libibtl.Engine.Locks.System.{
  ◌>>=◌, place, same, Thread, has, without, is_taken, act, step, is_done, all_done,
}
use libibtl.Engine.Locks.Ordered.{Above, Ordered}

-- every thread goes upwards from what it has
unfoldable pub Orderly : List Thread → Type 0
Orderly threads = (i : ℕ) (t : Thread) → get_elem? threads i ≡ some t → Ordered t.held t.actions

act-Ordered :
    (threads : List Thread) (t t' : Thread) (actions : List Action)
    → Ordered t.held actions
    → act threads t actions ≡ some t'
    → Ordered t'.held t'.actions × (length actions ≡ suc (length t'.actions))
unfolding act
act-Ordered threads t t' [] o e = cc
act-Ordered threads t t' (acquire m ∷ actions) (above, o) e =
    elim (Bool-cases (is_taken m threads)) [
      | inl taken ↦ (let no_step : none ≡ some t' = rw taken at e in cc)
      | inr free ↦
          let r : some (record { held = m ∷ t.held; actions = actions }) ≡ some t' = rw free at e in
          subst
            (λ x.
              Ordered x.held x.actions × (length (acquire m ∷ actions) ≡ suc (length x.actions)))
            (some_inj r) (o, refl)
    ]
act-Ordered threads t t' (release m ∷ actions) (own, o) e =
    let r : some (record { held = without m t.held; actions = actions }) ≡ some t' = rw own at e in
    subst (λ x. Ordered x.held x.actions × (length (release m ∷ actions) ≡ suc (length x.actions)))
      (some_inj r) (o, refl)

-- what is left to be done
pub remaining : List Thread → ℕ
remaining [] = 0
remaining (t ∷ ts) = length t.actions + remaining ts

remaining-set :
    (threads : List Thread) (i : ℕ) (t t' : Thread)
    → get_elem? threads i ≡ some t
    → length t.actions ≡ suc (length t'.actions)
    → remaining threads ≡ suc (remaining (set threads i t'))
unfolding remaining
remaining-set [] i t t' at e = cc
remaining-set (x ∷ xs) zero t t' at e =
    let own = ap (λ y. length y.actions) (some_inj at) in omega (arith, own, e)
remaining-set (x ∷ xs) (suc i) t t' at e = omega (arith, remaining-set xs i t t' at e)

pub bind_some {ℓ κ} :
    {A : Type ℓ} {B : Type κ} (o : Option A) (f : A → Option B) {b : B}
    → (o >>= f) ≡ some b
    → (a : A) × (o ≡ some a) × (f a ≡ some b)
bind_some none f e = cc
bind_some (some a) f e = (a, refl, e)

-- a step that is made, taken apart
step-some :
    (i : ℕ) (threads : List Thread) {threads' : List Thread}
    → step i threads ≡ some threads'
    → (t : Thread) × (t' : Thread) × (get_elem? threads i ≡ some t)
      × (act threads t t.actions ≡ some t')
      × (set threads i t' ≡ threads')
unfolding step
step-some i threads e =
    let (t, at, rest) = bind_some (get_elem? threads i) _ e in
    let (t', acted, is) = bind_some (act threads t t.actions) _ rest in
    (t, t', at, acted, some_inj is)

pub step-Orderly :
    (i : ℕ) (threads : List Thread) {threads' : List Thread}
    → Orderly threads
    → step i threads ≡ some threads'
    → Orderly threads' × (remaining threads ≡ suc (remaining threads'))
unfolding Orderly
step-Orderly i threads ok e =
    let (t, t', at, acted, is) = step-some i threads e in
    let (o, fewer) = act-Ordered threads t t' t.actions (ok i t at) acted in
    subst (λ s. Orderly s × (remaining threads ≡ suc (remaining s))) is
      (
        λ j u found. elim (get_elem?-set threads i j t' u found) [
          | inl (_, here) ↦ subst (λ x. Ordered x.held x.actions) here o
          | inr (_, there) ↦ ok j u there
        ],
        remaining-set threads i t t' at fewer,
      )

-- a thread that has a mutex
holder :
    (m : Mutex) (threads : List Thread)
    → is_taken m threads ≡ true
    → (j : ℕ) × (t : Thread) × (get_elem? threads j ≡ some t) × (has m t.held ≡ true)
holder m [] e = cc
holder m (t ∷ ts) e = elim (Bool-cases (has m t.held)) [
  | inl own ↦ (0, t, refl, own)
  | inr not_own ↦
      let taken : is_taken m ts ≡ true = rw not_own at e in
      let (j, u, at, own) = holder m ts taken in (suc j, u, at, own)
]

unfinished :
    (threads : List Thread)
    → all_done threads ≡ false
    → (j : ℕ) × (t : Thread) × (get_elem? threads j ≡ some t) × (is_done t.actions ≡ false)
unfinished [] e = cc
unfinished (t ∷ ts) e = elim (Bool-cases (is_done t.actions)) [
  | inl done ↦
      let others : all_done ts ≡ false = rw done at e in
      let (j, u, at, open_end) = unfinished ts others in (suc j, u, at, open_end)
  | inr open_end ↦ (0, t, refl, open_end)
]

Above-place :
    (m n : Mutex) (held : List Mutex) → Above n held → has m held ≡ true → place m < place n
Above-place m n [] above own = cc
Above-place m n (x ∷ held) (below, above) own = elim (Bool-cases (same x m)) [
  | inl here ↦ ground (arith, here, below)
  | inr there ↦ (let own' : has m held ≡ true = rw there at own in Above-place m n held above own')
]

place_bound : (m : Mutex) → place m < 8
place_bound aq = omega arith
place_bound pq = omega arith
place_bound free_query_q = omega arith
place_bound reg_mr_q = omega arith
place_bound locked_request_sem_q = omega arith
place_bound send_req_q = omega arith
place_bound failed_prank_q = omega arith
place_bound disconnected_prank_q = omega arith

unfoldable pub CanStep : List Thread → Type 0
CanStep threads = (j : ℕ) × (threads' : List Thread) × (step j threads ≡ some threads')

-- a mutex that is waited for is among the last `k` of the order
abbrev WaitsAmong : ℕ → List Action → Type 0
WaitsAmong k [] = Unit
WaitsAmong k (acquire m ∷ actions) = 8 ≤ place m + k
WaitsAmong k (release m ∷ actions) = Unit

WaitsAmong-Ordered :
    (k : ℕ) (m : Mutex) (held : List Mutex) (actions : List Action)
    → Ordered held actions
    → has m held ≡ true
    → 8 ≤ place m + suc k
    → (is_done actions ≡ false) × WaitsAmong k actions
WaitsAmong-Ordered k m held [] o own among =
    let none_held : has m [] ≡ true = subst (λ h. has m h ≡ true) o own in cc
WaitsAmong-Ordered k m held (release n ∷ actions) o own among = (refl, tt)
WaitsAmong-Ordered k m held (acquire n ∷ actions) (above, o) own among =
    (refl, omega (arith, Above-place m n held above own))

step-act :
    (threads : List Thread) (j : ℕ) (t t' : Thread)
    → get_elem? threads j ≡ some t
    → act threads t t.actions ≡ some t'
    → CanStep threads
unfolding CanStep step
step-act threads j t t' at acted = (j, set threads j t', rw (at, ◌>>=◌, acted) refl)

module _ (threads : List Thread) (ok : Orderly threads) where
  -- A thread that is not done steps, or waits for one that waits for a later mutex.
  advance :
      (k : ℕ) (j : ℕ) (t : Thread) (actions : List Action)
      → get_elem? threads j ≡ some t
      → t.actions ≡ actions
      → is_done actions ≡ false
      → WaitsAmong k actions
      → CanStep threads
  unfolding Orderly act
  advance k j t [] at e not_done among = cc
  advance k j t (release m ∷ actions) at e not_done among =
      let (own, _) : Ordered t.held (release m ∷ actions) = subst (Ordered t.held) e (ok j t at) in
      step-act threads j t (record { held = without m t.held; actions = actions }) at
        (ap (act threads t) e ∙ (rw own refl))
  advance zero j t (acquire m ∷ actions) at e not_done among = absurd (omega (arith, place_bound m))
  advance (suc k) j t (acquire m ∷ actions) at e not_done among =
      elim (Bool-cases (is_taken m threads)) [
        | inl taken ↦
            let (i, u, at_i, own) = holder m threads taken in
            let (open_end, later) =
              WaitsAmong-Ordered k m u.held u.actions (ok i u at_i) own among in
            advance k i u u.actions at_i refl open_end later
        | inr free ↦
            step-act threads j t (record { held = m ∷ t.held; actions = actions }) at
              (ap (act threads t) e ∙ (rw free refl))
      ]

  WaitsAmong-all : (actions : List Action) → WaitsAmong 8 actions
  WaitsAmong-all [] = tt
  WaitsAmong-all (acquire m ∷ actions) = omega arith
  WaitsAmong-all (release m ∷ actions) = tt

  pub can_step : all_done threads ≡ false → CanStep threads
  can_step e =
      let (j, t, at, not_done) = unfinished threads e in
      advance 8 j t t.actions at refl not_done (WaitsAmong-all t.actions)
