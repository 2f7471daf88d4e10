-- ===== src/Engine/Arrival/Posted.antt =====
-- src/fdmi.c: what a posted receive leaves of the engine's queues.
use libibtl.Base.{
  ℕ, zero, suc, ◌≡◌, refl, sym, ap, subst, Option, none, some, arith, Option-cases, List, ◌∷◌, inl,
  inr,
}
use libibtl.Engine.{Mr, Connection, Query, Work, recv_posted, Engine}
use libibtl.Engine.Queries.{Platform, reg_mr, reg_msg, find_reusable, take_query, create_query}
use libibtl.Engine.Post.{◌>>=◌, post_recv, post_recv_msg, Accepts, reg_mr-some}
use libibtl.Engine.Recv.{repost}
use libibtl.Engine.Matching.{All}
use libibtl.Engine.Arrival.Settled.{All-remove_query}
use libibtl.Engine.Arrival.Returns.{
  Leaves, Registered, AllRegistered, find_reusable-Registered, reg_mr-free_query_q,
}

-- `times` receives are posted on a connection, each behind what was posted before (latest first)
abbrev pub Receives : Connection → (times : ℕ) → (before after : List Work) → Type 0
Receives c zero before after = after ≡ before
Receives c (suc times) before after =
    (q : Query) × Receives c times (recv_posted c q ∷ before) after

-- what posting `times` receives on a connection does to an engine
pub record Posted (c : Connection) (times : ℕ) (e e' : Engine) : Type 0 where
  pub registered : AllRegistered e'
  pub aq : e'.aq ≡ e.aq
  pub pq : e'.pq ≡ e.pq
  pub send_req_q : e'.send_req_q ≡ e.send_req_q
  pub posted : Receives c times e.posted e'.posted

pub Leaves-some :
    (P : Engine → Type 0) (o : Option Engine) → Leaves P o → (e : Engine) × (o ≡ some e) × P e
Leaves-some P none h = elim h [ ]
Leaves-some P (some e) h = (e, refl, h)

pub reg_msg-Posted :
    (platform : Platform) (c : Connection) (q : Query) (e : Engine)
    → AllRegistered e
    → let e' = (reg_mr platform q.msg_address platform.sizeof_msg c.pd e).1 in
      AllRegistered e'
      × (e'.aq ≡ e.aq)
      × (e'.pq ≡ e.pq)
      × (e'.send_req_q ≡ e.send_req_q)
      × (e'.posted ≡ e.posted)
unfolding reg_mr
reg_msg-Posted platform c q e all = (
  subst (All Registered)
      (sym (reg_mr-free_query_q platform q.msg_address platform.sizeof_msg c.pd e)) all,
  ground arith,
  ground arith,
  ground arith,
  ground arith,
)

-- a receive on a connection, with a registered message
post_recv_msg-Posted :
    (platform : Platform) (c : Connection) (q : Query) (mr : Mr) (before e : Engine)
    → q.conn ≡ some c
    → q.msg_mr ≡ some mr
    → AllRegistered e
    → (e.aq ≡ before.aq)
      × (e.pq ≡ before.pq)
      × (e.send_req_q ≡ before.send_req_q)
      × (e.posted ≡ before.posted)
    → Accepts platform
    → Leaves (Posted c 1 before) (post_recv_msg platform q e)
unfolding post_recv_msg post_recv
post_recv_msg-Posted platform c q mr before e at has all (aq, pq, send_req_q, posted) accepts =
    rw (at, has, ◌>>=◌, accepts.receives)
      (record {
        registered = all;
        aq = aq;
        pq = pq;
        send_req_q = send_req_q;
        posted = (
          record q { conn = some c; msg_mr = some mr },
          ap (λ works. recv_posted c (record q { conn = some c; msg_mr = some mr }) ∷ works) posted,
        );
      })

pub repost-Posted :
    (platform : Platform) (c : Connection) (e : Engine)
    → AllRegistered e
    → Accepts platform
    → Leaves (Posted c 1 e) (repost platform (some c) e)
unfolding repost create_query take_query reg_msg
repost-Posted platform c e all accepts =
    elim (Option-cases (find_reusable (some c) e.free_query_q)) [
      | inl new ↦
          let fresh = platform.fresh_query e in
          let (registered, aq, pq, sends, posted) = reg_msg-Posted platform c fresh e all in
          let (mr, got) =
            reg_mr-some platform fresh.msg_address platform.sizeof_msg c.pd e accepts in
          rw new (
            post_recv_msg-Posted platform c _ mr e
              (reg_mr platform fresh.msg_address platform.sizeof_msg c.pd e).1 refl got registered
              (aq, pq, sends, posted) accepts)
      | inr (q, free) ↦
          let (mr, has) = find_reusable-Registered c e.free_query_q q all free in
          rw free (
            post_recv_msg-Posted platform c _ mr e _ refl has
              (All-remove_query Registered q.address e.free_query_q all) (refl, refl, refl, refl)
              accepts)
    ]
