-- ===== src/Engine/Flush.antt =====
-- fdmi_flush_query_qp: what a flush leaves in the two queues of src/fdmi.c.
use libibtl.Base.{
  ◌≡◌, refl, sym, ap, subst, ◌∙◌, true, false, List, [], ◌∷◌, ◌++◌, append-nil, append_assoc, arith,
  ◌==◌, if◌then◌else◌, Bool-cases, inl, inr,
}
use libibtl.Engine.{Query, Engine, remove_query}
use libibtl.Engine.Send.{is_preserved, flush_queue, flush_query_qp}
use libibtl.Engine.Matching.{All}

-- no two queries have the same address
abbrev pub Distinct : List Query → Type 0
Distinct [] = Unit
Distinct (q ∷ qs) = All (λ p. (q.address == p.address) ≡ false) qs × Distinct qs

-- the queries that are preserved, or are not, in their order
abbrev pub preserved : List Query → List Query
preserved [] = []
preserved (q ∷ qs) = if is_preserved q then q ∷ preserved qs else preserved qs

abbrev pub dropped : List Query → List Query
dropped [] = []
dropped (q ∷ qs) = if is_preserved q then dropped qs else q ∷ dropped qs

All-middle {ℓ} :
    {A : Type ℓ} (P : A → Type 0) (xs : List A) (x : A) (ys : List A)
    → All P (xs ++ x ∷ ys)
    → P x × All P (xs ++ ys)
All-middle P [] x ys h = h
All-middle P (y ∷ xs) x ys h = let (here, rest) = All-middle P xs x ys h.1 in (here, (h.0, rest))

remove_query-middle :
    (kept : List Query) (q : Query) (rest : List Query)
    → Distinct (kept ++ q ∷ rest)
    → (remove_query q.address (kept ++ q ∷ rest) ≡ kept ++ rest) × Distinct (kept ++ rest)
unfolding remove_query
remove_query-middle [] q rest d =
    let self : (q.address == q.address) ≡ true = ground arith in (rw self refl, d.1)
remove_query-middle (k ∷ kept) q rest d =
    let (apart, others) = All-middle _ kept q rest d.0 in
    let (removed, distinct) = remove_query-middle kept q rest d.1 in
    (rw apart (ap (λ l. k ∷ l) removed), (others, distinct))

flush_queue-preserved :
    (rest kept free : List Query)
    → Distinct (kept ++ rest)
    → flush_queue rest (kept ++ rest) free ≡ (kept ++ preserved rest, free ++ dropped rest)
unfolding flush_queue
flush_queue-preserved [] kept free d = ap (λ l. (kept ++ [], l)) (sym (append-nil free))
flush_queue-preserved (q ∷ rest) kept free d = elim (Bool-cases (is_preserved q)) [
  | inl keep ↦ rw keep (
      ap (λ l. flush_queue rest l free) (sym (append_assoc kept (q ∷ []) rest))
      ∙ flush_queue-preserved rest (kept ++ q ∷ []) free
          (subst Distinct (sym (append_assoc kept (q ∷ []) rest)) d)
      ∙ ap (λ l. (l, free ++ dropped rest)) (append_assoc kept (q ∷ []) (preserved rest)))
  | inr gone ↦
      let (removed, distinct) = remove_query-middle kept q rest d in
      rw gone (
        ap (λ l. flush_queue rest l (free ++ q ∷ [])) removed
        ∙ flush_queue-preserved rest kept (free ++ q ∷ []) distinct
        ∙ ap (λ l. (kept ++ preserved rest, l)) (append_assoc free (q ∷ []) (dropped rest)))
]

-- A flush leaves the preserved queries in both queues, in their order, and gives all others back to
-- the free list, the messages before the receives. Within each queue the addresses are distinct.
pub flush_query_qp-preserved :
    (e : Engine)
    → Distinct e.aq
    → Distinct e.pq
    → ((flush_query_qp e).aq ≡ preserved e.aq)
      × ((flush_query_qp e).pq ≡ preserved e.pq)
      × ((flush_query_qp e).free_query_q ≡ (e.free_query_q ++ dropped e.aq) ++ dropped e.pq)
unfolding flush_query_qp
flush_query_qp-preserved e da dp =
    rw (flush_queue-preserved e.aq [] e.free_query_q da)
      (rw (flush_queue-preserved e.pq [] (e.free_query_q ++ dropped e.aq) dp) (refl, refl, refl))
