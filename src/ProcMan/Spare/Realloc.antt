-- ===== src/ProcMan/Spare/Realloc.antt =====
-- fdmi_reallocate_state_listd: which ranks it elects.
use libibtl.Base.{
  ℕ, zero, suc, ◌+◌, ◌<◌, ◌≤◌, ◌≡◌, refl, ◌≢◌, sym, ap, subst, ◌∙◌, ◌⊎◌, none, some, List, [], ◌∷◌,
  ◌++◌, arith, Bool-cases, Option-cases, inl, inr, length, get_elem?, set, ltb, some_inj,
  length-append,
}
use native.Mathlib.Nat.{add-zero}
use libibtl.ProcMan.{PrankState, pfailure, pcompute, pstandby, pnothing}
use libibtl.ProcMan.Spare.{
  Range, is_standby, is_failure, find_standby, mark_range, mark_failed, check_range, check_elected,
  elect, drop, reallocate,
}

-- a failure elsewhere leaves the first standby rank the first
find_standby-set :
    (states : List PrankState) (i j o : ℕ)
    → find_standby states i ≡ some o
    → i + j ≢ o
    → find_standby (set states j pfailure) i ≡ some o
unfolding find_standby is_standby
find_standby-set [] i j o e ne = cc
find_standby-set (s ∷ states) i zero o e ne = elim (Bool-cases (is_standby s)) [
  | inl hit ↦ let here : some i ≡ some o = rw hit at e in absurd (ne (add-zero i ∙ some_inj here))
  | inr miss ↦ rw miss at e
]
find_standby-set (s ∷ states) i (suc j) o e ne = elim (Bool-cases (is_standby s)) [
  | inl hit ↦ rw hit (rw hit at e)
  | inr miss ↦
      rw miss (find_standby-set states (i + 1) j o (rw miss at e) (λ z. ne (omega (arith, z))))
]

abbrev pub Outside : ℕ → Range → Type 0
Outside o (offset, n) = (o < offset) ⊎ (offset + n ≤ o)

find_standby-mark_range :
    (n j o : ℕ) (states states' : List PrankState)
    → mark_range n j states ≡ some states'
    → find_standby states 0 ≡ some o
    → Outside o (j, n)
    → find_standby states' 0 ≡ some o
unfolding mark_range
find_standby-mark_range zero j o states states' e first out =
    subst (λ s. find_standby s 0 ≡ some o) (some_inj e) first
find_standby-mark_range (suc n) j o states states' e first out =
    elim (Bool-cases (ltb j (length states))) [
      | inl inside ↦
          find_standby-mark_range n (j + 1) o (set states j pfailure) states' (rw inside at e)
            (find_standby-set states 0 j o first (λ z. omega arith)) (omega arith)
      | inr outside ↦ (let no_list : none ≡ some states' = rw outside at e in cc)
    ]

abbrev pub AllOutside : ℕ → List Range → Type 0
AllOutside o [] = Unit
AllOutside o (r ∷ rs) = Outside o r × AllOutside o rs

find_standby-mark_failed :
    (rs : List Range) (o : ℕ) (states states' : List PrankState)
    → mark_failed rs states ≡ some states'
    → find_standby states 0 ≡ some o
    → AllOutside o rs
    → find_standby states' 0 ≡ some o
unfolding mark_failed
find_standby-mark_failed [] o states states' e first out =
    subst (λ s. find_standby s 0 ≡ some o) (some_inj e) first
find_standby-mark_failed ((j, n) ∷ rs) o states states' e first out =
    elim (Option-cases (mark_range n j states)) [
      | inl no_list ↦ (let none_some : none ≡ some states' = rw no_list at e in cc)
      | inr (s, marked) ↦
          find_standby-mark_failed rs o s states' (rw marked at e)
            (find_standby-mark_range n j o states s marked first out.0) out.1
    ]

set-get_self {ℓ} :
    {A : Type ℓ} (xs : List A) (i : ℕ) (a : A) → get_elem? xs i ≡ some a → set xs i a ≡ xs
set-get_self [] i a e = refl
set-get_self (x ∷ xs) zero a e = ap (λ y. y ∷ xs) (sym (some_inj e))
set-get_self (x ∷ xs) (suc i) a e = ap (λ l. x ∷ l) (set-get_self xs i a e)

-- one step of the check, whose rest changes nothing
check_range_step :
    (n j : ℕ) (states states' : List PrankState) (s : PrankState)
    → ((l : List PrankState) → check_range n (j + 1) l ≡ some states' → states' ≡ l)
    → get_elem? states j ≡ some s
    → check_range (suc n) j states ≡ some states'
    → states' ≡ states
unfolding check_range is_standby is_failure
check_range_step n j states states' pfailure rest at e =
    (let none_some : none ≡ some states' = rw at at e in cc)
check_range_step n j states states' pcompute rest at e = rest states (rw at at e)
check_range_step n j states states' pnothing rest at e = rest states (rw at at e)
check_range_step n j states states' pstandby rest at e =
    rest (set states j pstandby) (rw at at e) ∙ set-get_self states j pstandby at

-- the check of the elected ranges changes nothing
check_range-eq :
    (n j : ℕ) (states states' : List PrankState)
    → check_range n j states ≡ some states'
    → states' ≡ states
unfolding check_range
check_range-eq zero j states states' e = sym (some_inj e)
check_range-eq (suc n) j states states' e = elim (Option-cases (get_elem? states j)) [
  | inl no_state ↦ (let none_some : none ≡ some states' = rw no_state at e in cc)
  | inr (s, at) ↦
      check_range_step n j states states' s (λ l h. check_range-eq n (j + 1) l states' h) at e
]

check_elected-eq :
    (rs : List Range) (states states' : List PrankState)
    → check_elected rs states ≡ some states'
    → states' ≡ states
unfolding check_elected
check_elected-eq [] states states' e = sym (some_inj e)
check_elected-eq ((j, n) ∷ rs) states states' e = elim (Option-cases (check_range n j states)) [
  | inl no_list ↦ (let none_some : none ≡ some states' = rw no_list at e in cc)
  | inr (s, checked) ↦
      check_elected-eq rs s states' (rw checked at e) ∙ check_range-eq n j states s checked
]

-- what a reallocation that succeeds has done
pub record Reallocated (failed old : List Range) (states : List PrankState) (new : List Range)
    (states' : List PrankState) : Type 0 where
  pub marked : mark_failed failed states ≡ some states'
  pub sid : ℕ
  pub first : find_standby states' 0 ≡ some sid
  pub new_eq : new ≡ old ++ elect sid (drop (length old) failed)

reallocate-Reallocated :
    (failed old new : List Range) (states states' : List PrankState)
    → reallocate failed old states ≡ some (new, states')
    → Reallocated failed old states new states'
unfolding reallocate
reallocate-Reallocated failed old new states states' e =
    elim (Option-cases (mark_failed failed states)) [
      | inl no_list ↦ (let none_some : none ≡ some (new, states') = rw no_list at e in cc)
      | inr (s, marked) ↦ elim (Option-cases (find_standby s 0)) [
        | inl no_sid ↦ (let none_some : none ≡ some (new, states') = rw (marked, no_sid) at e in cc)
        | inr (sid, first) ↦
            let fresh = elect sid (drop (length old) failed) in
            elim (Option-cases (check_elected fresh s)) [
              | inl no_check ↦
                  (let none_some : none ≡ some (new, states') = rw (marked, first, no_check) at e in
                    cc)
              | inr (t, checked) ↦
                  let pair : some (old ++ fresh, t) ≡ some (new, states') =
                    rw (marked, first, checked) at e in
                  let both = some_inj pair in
                  let same : s ≡ states' =
                    sym (check_elected-eq fresh s t checked) ∙ ap (λ p. p.1) both in
                  record {
                    marked = marked ∙ ap some same;
                    sid = sid;
                    first = subst (λ l. find_standby l 0 ≡ some sid) same first;
                    new_eq = sym (ap (λ p. p.0) both);
                  }
            ]
      ]
    ]

length-elect : (sid : ℕ) (rs : List Range) → length (elect sid rs) ≡ length rs
unfolding elect
length-elect sid [] = refl
length-elect sid ((o, n) ∷ rs) = omega (arith, length-elect (sid + n) rs)

drop-append {ℓ} : {A : Type ℓ} (k : ℕ) (xs ys : List A) → k ≡ length xs → drop k (xs ++ ys) ≡ ys
unfolding drop
drop-append zero [] ys e = refl
drop-append zero (x ∷ xs) ys e = absurd (omega arith)
drop-append (suc k) [] ys e = absurd (omega arith)
drop-append (suc k) (x ∷ xs) ys e = drop-append k xs ys (omega arith)

length-drop {ℓ} :
    {A : Type ℓ} (k : ℕ) (xs : List A) → k ≤ length xs → k + length (drop k xs) ≡ length xs
unfolding drop
length-drop zero xs h = omega arith
length-drop (suc k) [] h = absurd (omega arith)
length-drop (suc k) (x ∷ xs) h = omega (arith, length-drop k xs (omega arith))

-- Two calls of fdmi_reallocate_state_listd, the second with more failed ranges than the first and
-- with the ranges that the first has elected. Each failed range has at most one elected range before
-- the first call, and the first standby rank after it lies in no failed range. Then both calls elect
-- their ranges from that one rank on.
pub reallocate-repeats :
    (failed more old new newer : List Range) (states states₁ states₂ : List PrankState) (sid : ℕ)
    → length old ≤ length failed
    → reallocate failed old states ≡ some (new, states₁)
    → reallocate (failed ++ more) new states₁ ≡ some (newer, states₂)
    → find_standby states₁ 0 ≡ some sid
    → AllOutside sid (failed ++ more)
    → (new ≡ old ++ elect sid (drop (length old) failed)) × (newer ≡ new ++ elect sid more)
reallocate-repeats failed more old new newer states states₁ states₂ sid fits e₁ e₂ first out =
    let a = reallocate-Reallocated failed old new states states₁ e₁ in
    let b = reallocate-Reallocated (failed ++ more) new newer states₁ states₂ e₂ in
    let sid_a : a.sid ≡ sid = some_inj (sym a.first ∙ first) in
    let kept = find_standby-mark_failed (failed ++ more) sid states₁ states₂ b.marked first out in
    let sid_b : b.sid ≡ sid = some_inj (sym b.first ∙ kept) in
    let new_eq : new ≡ old ++ elect sid (drop (length old) failed) =
      subst (λ s. new ≡ old ++ elect s (drop (length old) failed)) sid_a a.new_eq in
    let len : length new ≡ length failed =
      ap length new_eq
      ∙ length-append old _
      ∙ ap (λ k. length old + k) (length-elect sid _)
      ∙ length-drop (length old) failed fits in
    (
      new_eq,
      b.new_eq
          ∙ ap (λ s. new ++ elect s (drop (length new) (failed ++ more))) sid_b
          ∙ ap (λ l. new ++ elect sid l) (drop-append (length new) failed more len),
    )
