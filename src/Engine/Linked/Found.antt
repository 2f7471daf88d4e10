-- ===== src/Engine/Linked/Found.antt =====
-- The two searches on a linked queue find what they find in the list of its queries.
use libibtl.Base.{
  ℕ, ◌≡◌, refl, ◌≢◌, ap, ◌∙◌, Bool-cases, Option, none, some, inl, inr, List, [], ◌∷◌,
}
use libibtl.Base.Int.{ℤ}
use libibtl.Store.{Ptr, null, Heap, ok}
use libibtl.Store.Cells.{Cells}
use libibtl.Queue.{Queue}
use libibtl.Queue.Holds.{Holds}
use libibtl.Queue.Search.{search, search-found, PointTo, found}
use libibtl.Engine.{
  Query, is_matched_query, is_matched_query2, get_matched_query, get_matched_query2,
}
use libibtl.Engine.Linked.{Messages, entries, address_or_null}

-- a query that is found is allocated
abbrev pub NotNull : Option Query → Type 0
NotNull none = Unit
NotNull (some q) = q.address ≢ null

get_matched_query-found :
    (ft_epoch : ℕ) (query : Query) (qs : List Query)
    → found (is_matched_query ft_epoch query.msg) (entries qs)
      ≡ address_or_null (get_matched_query ft_epoch query qs)
unfolding found get_matched_query address_or_null entries
get_matched_query-found ft_epoch query [] = refl
get_matched_query-found ft_epoch query (tmp ∷ qs) =
    elim (Bool-cases (is_matched_query ft_epoch query.msg tmp.msg)) [
      | inl hit ↦ rw hit refl
      | inr miss ↦ rw miss (get_matched_query-found ft_epoch query qs)
    ]

get_matched_query2-found :
    (ft_epoch : ℕ) (rank tag : ℤ) (comm_id : ℕ) (qs : List Query)
    → found (is_matched_query2 ft_epoch rank tag comm_id) (entries qs)
      ≡ address_or_null (get_matched_query2 ft_epoch rank tag comm_id qs)
unfolding found get_matched_query2 address_or_null entries
get_matched_query2-found ft_epoch rank tag comm_id [] = refl
get_matched_query2-found ft_epoch rank tag comm_id (tmp ∷ qs) =
    elim (Bool-cases (is_matched_query2 ft_epoch rank tag comm_id tmp.msg)) [
      | inl hit ↦ rw hit refl
      | inr miss ↦ rw miss (get_matched_query2-found ft_epoch rank tag comm_id qs)
    ]

pub get_matched_query-NotNull :
    (store : Messages) (ft_epoch : ℕ) (query : Query) (cs : Cells) (qs : List Query)
    → PointTo store cs (entries qs)
    → NotNull (get_matched_query ft_epoch query qs)
unfolding get_matched_query PointTo entries
get_matched_query-NotNull store ft_epoch query [] [] t = tt
get_matched_query-NotNull store ft_epoch query (c ∷ cs) (tmp ∷ qs) (_, nn, _, t) =
    elim (Bool-cases (is_matched_query ft_epoch query.msg tmp.msg)) [
      | inl hit ↦ rw hit nn
      | inr miss ↦ rw miss (get_matched_query-NotNull store ft_epoch query cs qs t)
    ]
get_matched_query-NotNull store ft_epoch query [] (tmp ∷ qs) t = elim (t.0) [ ]
get_matched_query-NotNull store ft_epoch query (c ∷ cs) [] t = elim (t.0) [ ]

pub get_matched_query2-NotNull :
    (store : Messages) (ft_epoch : ℕ) (rank tag : ℤ) (comm_id : ℕ) (cs : Cells) (qs : List Query)
    → PointTo store cs (entries qs)
    → NotNull (get_matched_query2 ft_epoch rank tag comm_id qs)
unfolding get_matched_query2 PointTo entries
get_matched_query2-NotNull store ft_epoch rank tag comm_id [] [] t = tt
get_matched_query2-NotNull store ft_epoch rank tag comm_id (c ∷ cs) (tmp ∷ qs) (_, nn, _, t) =
    elim (Bool-cases (is_matched_query2 ft_epoch rank tag comm_id tmp.msg)) [
      | inl hit ↦ rw hit nn
      | inr miss ↦ rw miss (get_matched_query2-NotNull store ft_epoch rank tag comm_id cs qs t)
    ]
get_matched_query2-NotNull store ft_epoch rank tag comm_id [] (tmp ∷ qs) t = elim (t.0) [ ]
get_matched_query2-NotNull store ft_epoch rank tag comm_id (c ∷ cs) [] t = elim (t.0) [ ]

pub search-get_matched_query :
    (store : Messages) (ft_epoch : ℕ) (query : Query) (h : Heap) (q : Queue) (cs : Cells)
    (qs : List Query)
    → Holds h q cs
    → PointTo store cs (entries qs)
    → (e : Ptr) × (search store (is_matched_query ft_epoch query.msg) q h
        ≡ ok (address_or_null (get_matched_query ft_epoch query qs), record q { ite = e }) h)
search-get_matched_query store ft_epoch query h q cs qs holds t =
    let (e, run) =
      search-found store (is_matched_query ft_epoch query.msg) h q cs (entries qs) holds t in
    (e, run ∙ ap (λ p. ok (p, record q { ite = e }) h) (get_matched_query-found ft_epoch query qs))

pub search-get_matched_query2 :
    (store : Messages) (ft_epoch : ℕ) (rank tag : ℤ) (comm_id : ℕ) (h : Heap) (q : Queue)
    (cs : Cells) (qs : List Query)
    → Holds h q cs
    → PointTo store cs (entries qs)
    → (e : Ptr) × (search store (is_matched_query2 ft_epoch rank tag comm_id) q h
        ≡ ok
            (
              address_or_null (get_matched_query2 ft_epoch rank tag comm_id qs),
              record q { ite = e },
            )
            h)
search-get_matched_query2 store ft_epoch rank tag comm_id h q cs qs holds t =
    let (e, run) =
      search-found store (is_matched_query2 ft_epoch rank tag comm_id) h q cs (entries qs) holds
        t in
    (
      e,
      run
          ∙ ap (λ p. ok (p, record q { ite = e }) h)
              (get_matched_query2-found ft_epoch rank tag comm_id qs),
    )
