-- ===== src/Engine/Transfer.antt =====
-- src/fdmi.c, one eager message and the receive that gets it: what the steps around the copy leave
-- alone, and how the two searches find what was queued last.
pub mod Orders
pub mod Bytes
pub mod Acknowledge
use libibtl.Base.{
  ◌≡◌, refl, sym, ap, subst, ◌∙◌, true, false, Option, none, some, List, [], ◌∷◌, ◌++◌, arith, ◌==◌,
  Bool-cases, Option-cases, inl, inr, ℕ, ◌≤◌, leb,
}
use libibtl.Base.Int.{ℤ}
use libibtl.Store.{Ptr}
use libibtl.Engine.{
  Connection, Query, Param, Engine, Request, is_matched_query, is_matched_query2, get_matched_query,
  get_matched_query2, remove_query, recv_posted,
}
use libibtl.Datatype.{Memory}
use libibtl.Engine.Queries.{Platform, reg_mr, reg_msg, find_reusable, take_query, create_query}
use libibtl.Engine.Post.{◌>>=◌, post_recv, post_recv_msg, Accepts}
use libibtl.Engine.Recv.{repost}
use libibtl.Engine.Matching.{All}
use libibtl.Engine.Arrival.Returns.{AllRegistered}
use libibtl.Engine.Arrival.Sound.Calls.{create_query-mr}

-- what a step leaves of the engine that is not its own book-keeping of queries and registrations
pub record Frame (e e' : Engine) : Type 0 where
  pub aq : e'.aq ≡ e.aq
  pub pq : e'.pq ≡ e.pq
  pub ft_epoch : e'.ft_epoch ≡ e.ft_epoch
  pub memory : e'.memory ≡ e.memory
  pub requests : e'.requests ≡ e.requests
  pub send_req_q : e'.send_req_q ≡ e.send_req_q

pub Frame-trans : {a b c : Engine} → Frame a b → Frame b c → Frame a c
Frame-trans f g = record {
  aq = g.aq ∙ f.aq;
  pq = g.pq ∙ f.pq;
  ft_epoch = g.ft_epoch ∙ f.ft_epoch;
  memory = g.memory ∙ f.memory;
  requests = g.requests ∙ f.requests;
  send_req_q = g.send_req_q ∙ f.send_req_q;
}

module _ (platform : Platform) where
  pub reg_mr-Frame :
      (addr size : ℕ) (pd : Ptr) (e : Engine) → Frame e (reg_mr platform addr size pd e).1
  unfolding reg_mr
  reg_mr-Frame addr size pd e = ground arith

  pub create_query-Frame :
      (conn : Option Connection) (e : Engine) → Frame e (create_query platform conn e).1
  unfolding create_query take_query reg_msg
  create_query-Frame none e = elim (Option-cases (find_reusable none e.free_query_q)) [
    | inl new ↦ rw new (record {
      aq = refl;
      pq = refl;
      ft_epoch = refl;
      memory = refl;
      requests = refl;
      send_req_q = refl;
    })
    | inr (q, free) ↦ rw free (record {
      aq = refl;
      pq = refl;
      ft_epoch = refl;
      memory = refl;
      requests = refl;
      send_req_q = refl;
    })
  ]
  create_query-Frame (some c) e = elim (Option-cases (find_reusable (some c) e.free_query_q)) [
    | inl new ↦ rw new (reg_mr-Frame _ _ c.pd e)
    | inr (q, free) ↦ rw free (record {
      aq = refl;
      pq = refl;
      ft_epoch = refl;
      memory = refl;
      requests = refl;
      send_req_q = refl;
    })
  ]

  -- a posted receive, where the free queries can be used again
  pub repost-Frame :
      (c : Connection) (e : Engine)
      → AllRegistered e
      → Accepts platform
      → (e' : Engine) × (repost platform (some c) e ≡ some e') × Frame e e'
  unfolding repost create_query post_recv_msg post_recv
  repost-Frame c e all accepts =
      let (mr, has) = create_query-mr platform c e all accepts in
      let (q, e') = create_query platform (some c) e in
      let f = create_query-Frame (some c) e in
      (
        record e' { posted = recv_posted c q ∷ e'.posted },
        rw (has, ◌>>=◌, accepts.receives) refl,
        record {
          aq = f.aq;
          pq = f.pq;
          ft_epoch = f.ft_epoch;
          memory = f.memory;
          requests = f.requests;
          send_req_q = f.send_req_q;
        },
      )

-- the search of a receive, where only the message that was queued last matches
pub get_matched_query2-snoc :
    (ft_epoch : ℕ) (rank tag : ℤ) (comm_id : ℕ) (queue : List Query) (active : Query)
    → get_matched_query2 ft_epoch rank tag comm_id queue ≡ none
    → is_matched_query2 ft_epoch rank tag comm_id active.msg ≡ true
    → get_matched_query2 ft_epoch rank tag comm_id (queue ++ active ∷ []) ≡ some active
unfolding get_matched_query2
get_matched_query2-snoc ft_epoch rank tag comm_id [] active misses hit = rw hit refl
get_matched_query2-snoc ft_epoch rank tag comm_id (q ∷ queue) active misses hit =
    elim (Bool-cases (is_matched_query2 ft_epoch rank tag comm_id q.msg)) [
      | inl other ↦ (let found : some q ≡ none = rw other at misses in cc)
      | inr miss ↦
          rw miss
            (get_matched_query2-snoc ft_epoch rank tag comm_id queue active (rw miss at misses) hit)
    ]

-- the search of a message, where only the receive that was queued last matches
pub get_matched_query-snoc :
    (ft_epoch : ℕ) (active passive : Query) (queue : List Query)
    → get_matched_query ft_epoch active queue ≡ none
    → is_matched_query ft_epoch active.msg passive.msg ≡ true
    → get_matched_query ft_epoch active (queue ++ passive ∷ []) ≡ some passive
unfolding get_matched_query
get_matched_query-snoc ft_epoch active passive [] misses hit = rw hit refl
get_matched_query-snoc ft_epoch active passive (q ∷ queue) misses hit =
    elim (Bool-cases (is_matched_query ft_epoch active.msg q.msg)) [
      | inl other ↦ (let found : some q ≡ none = rw other at misses in cc)
      | inr miss ↦
          rw miss (get_matched_query-snoc ft_epoch active passive queue (rw miss at misses) hit)
    ]

-- no query of a queue is at an address
abbrev pub AwayFrom : Ptr → List Query → Type 0
AwayFrom p queue = All (λ q. (q.address == p) ≡ false) queue

pub remove_query-snoc :
    (q : Query) (queue : List Query)
    → AwayFrom q.address queue
    → remove_query q.address (queue ++ q ∷ []) ≡ queue
unfolding remove_query
remove_query-snoc q [] away =
    let own : (q.address == q.address) ≡ true = ground arith in rw own refl
remove_query-snoc q (p ∷ queue) away =
    rw away.0 (ap (λ qs. p ∷ qs) (remove_query-snoc q queue away.1))
