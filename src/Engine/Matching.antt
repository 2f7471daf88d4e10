-- ===== src/Engine/Matching.antt =====
-- Which message a receive gets: the two matching functions of src/fdmi.c, and the two searches.
use libibtl.Base.{
  ℕ, ◌≤◌, ◌≡◌, refl, ap, Bool, true, false, ◌||◌, Option, none, some, List, [], ◌∷◌, ◌++◌, ◌==◌,
  arith, Bool-cases, inl, inr,
}
use libibtl.Base.Int.{ℤ, pos, negsuc, minus_one, to_u64, eq_ℤ, IsInt}
use libibtl.Engine.{
  Msg, Query, is_matched_query, is_matched_query2, get_matched_query, get_matched_query2,
}

abbrev pub All {ℓ} : {A : Type ℓ} → (A → Type 0) → List A → Type 0
All P [] = Unit
All P (x ∷ xs) = P x × All P xs

-- the wildcard is recognised at 64 bits exactly where it is at 32
wildcard-to_u64 : (a : ℤ) → IsInt a → eq_ℤ a minus_one ≡ (to_u64 a == to_u64 minus_one)
wildcard-to_u64 (pos n) h = ground arith
wildcard-to_u64 (negsuc n) h = ground arith

or_swap : (x y z : Bool) → (x || (y || z)) ≡ (y || (x || z))
or_swap x y z = ground arith

-- A message and a receive of the current epoch match in whichever order they come: the test of a
-- message that arrives, against the waiting receive, gives what the test of a receive that is posted,
-- against the waiting message, gives. The receive's rank and tag are values of `int`.
pub is_matched_query_symm :
    (ft_epoch : ℕ) (rank tag : ℤ) (message receive : Msg)
    → IsInt rank
    → IsInt tag
    → ft_epoch ≤ message.epoch
    → ft_epoch ≤ receive.epoch
    → receive.rank ≡ to_u64 rank
    → receive.tag ≡ to_u64 tag
    → is_matched_query ft_epoch message receive
      ≡ is_matched_query2 ft_epoch rank tag receive.comm_id message
unfolding is_matched_query is_matched_query2
is_matched_query_symm ft_epoch rank tag message receive hr ht live live' er et =
    ground (arith, wildcard-to_u64 rank hr, wildcard-to_u64 tag ht)

-- the outcome of a search: nothing matches, or the first that does
abbrev pub IsFirst : (Query → Bool) → List Query → Option Query → Type 0
IsFirst test queue none = All (λ q. test q ≡ false) queue
IsFirst test queue (some q) =
    (before : List Query) × (after : List Query) × (queue ≡ before ++ q ∷ after)
    × All (λ p. test p ≡ false) before
    × (test q ≡ true)

IsFirst-cons :
    (test : Query → Bool) (p : Query) (queue : List Query) (o : Option Query)
    → test p ≡ false
    → IsFirst test queue o
    → IsFirst test (p ∷ queue) o
IsFirst-cons test p queue none miss h = (miss, h)
IsFirst-cons test p queue (some q) miss (before, after, e, none_before, hit) =
    (p ∷ before, after, ap (λ l. p ∷ l) e, (miss, none_before), hit)

-- A message that arrives gets the first waiting receive that matches, if there is one.
pub get_matched_query-IsFirst :
    (ft_epoch : ℕ) (query : Query) (queue : List Query)
    → IsFirst
        (λ p. is_matched_query ft_epoch query.msg p.msg)
        queue
        (get_matched_query ft_epoch query queue)
unfolding get_matched_query
get_matched_query-IsFirst ft_epoch query [] = tt
get_matched_query-IsFirst ft_epoch query (p ∷ queue) =
    elim (Bool-cases (is_matched_query ft_epoch query.msg p.msg)) [
      | inl hit ↦ rw hit ([], queue, refl, tt, hit)
      | inr miss ↦
          rw miss (IsFirst-cons _ p queue _ miss (get_matched_query-IsFirst ft_epoch query queue))
    ]

-- A receive that is posted gets the first message in the queue that matches, if there is one.
pub get_matched_query2-IsFirst :
    (ft_epoch : ℕ) (rank tag : ℤ) (comm_id : ℕ) (queue : List Query)
    → IsFirst
        (λ p. is_matched_query2 ft_epoch rank tag comm_id p.msg)
        queue
        (get_matched_query2 ft_epoch rank tag comm_id queue)
unfolding get_matched_query2
get_matched_query2-IsFirst ft_epoch rank tag comm_id [] = tt
get_matched_query2-IsFirst ft_epoch rank tag comm_id (p ∷ queue) =
    elim (Bool-cases (is_matched_query2 ft_epoch rank tag comm_id p.msg)) [
      | inl hit ↦ rw hit ([], queue, refl, tt, hit)
      | inr miss ↦ rw miss (
          IsFirst-cons _ p queue _ miss
            (get_matched_query2-IsFirst ft_epoch rank tag comm_id queue))
    ]
