-- ===== src/Engine/Arrival/Sound.antt =====
-- src/fdmi.c: what holds of the queues whenever the poller takes a completion, and that it goes on holding
-- whatever completion this is.
pub mod Ready
pub mod Poll
pub mod Calls
pub mod Run
use libibtl.Base.{
  ◌≡◌, refl, sym, ap, subst, ◌∙◌, Bool, true, false, Option, none, some, List, [], ◌∷◌, ◌++◌, arith,
  ◌==◌, leb, Bool-cases, inl, inr, if◌then◌else◌,
}
use libibtl.Base.Int.{ℤ, to_u64}
use libibtl.Store.{Ptr, null}
use libibtl.Engine.{
  Opcode, eager, rdma_read, loop, comm_init, comm_fin, Connection, Mr, Active, Query, Engine,
  get_matched_query, remove_query, is_matched_query,
}
use libibtl.Engine.Queries.{Platform, reg_mr, destroy_query, as_query, as_active}
use libibtl.Engine.Post.{◌>>=◌, post_send, post_send_msg, post_rdma_read, Accepts, reg_mr-some}
use libibtl.Engine.Recv.{
  is_discarded, write_request, complete, cpy_eager_buff, deliver, arrive, repost,
  on_recv_cq_wc_recv, on_recv_cq_wc_rdma_read, on_recv_cq_wc_send,
}
use libibtl.Engine.Send.{
  raise_flag, destroy_active, acknowledge, on_send_cq_wc_send, on_send_cq_wc_recv, WcOpcode,
  wc_recv, wc_rdma_read, wc_send, wc_other, dispatch, poll_sendrecv_cq,
}
use libibtl.Engine.Failure.{is_discarded_never}
use libibtl.Engine.Matching.{All, IsFirst, get_matched_query-IsFirst}
use libibtl.Engine.Arrival.Settled.{Settled, SettledIf, All-remove_query}
use libibtl.Engine.Arrival.Returns.{
  Registered, Waiting, Connected, Leaves, AllRegistered, All-snoc, IsFirst-All, Leaves-bind,
}
use libibtl.Engine.Arrival.Posted.{Posted, reg_msg-Posted, repost-Posted}
use libibtl.Engine.Arrival.Dispatch.{poll_sendrecv_cq-SettledIf}

abbrev pub NonNull : Ptr → Type 0
NonNull p = (p == null) ≡ false

-- a message that has arrived
abbrev pub Arrived : Query → Type 0
Arrived a = Connected a × Registered a

-- The free queries and those that wait can be used again: what has a connection has its message
-- registered, a receive has a request, and a message a connection.
pub record Usable (e : Engine) : Type 0 where
  pub free : AllRegistered e
  pub waiting : All Waiting e.pq
  pub arrived : All Arrived e.aq
  pub sending : All NonNull e.send_req_q

pub All-last :
    {A : Type 0} (P : A → Type 0) (xs : List A) (x : A) → All P xs → P x → All P (xs ++ x ∷ [])
All-last P [] x all h = (h, tt)
All-last P (y ∷ xs) x all h = (all.0, All-last P xs x all.1 h)

pub Usable-Posted :
    (c : Connection) (n : _) (e e' : Engine) → Posted c n e e' → Usable e → Usable e'
Usable-Posted c n e e' posted u = record {
  free = posted.registered;
  waiting = subst (All Waiting) (sym posted.pq) u.waiting;
  arrived = subst (All Arrived) (sym posted.aq) u.arrived;
  sending = subst (All NonNull) (sym posted.send_req_q) u.sending;
}

pub Leaves-mono :
    (P Q : Engine → Type 0) (o : Option Engine)
    → ((e : Engine) → P e → Q e)
    → Leaves P o
    → Leaves Q o
Leaves-mono P Q none f l = l
Leaves-mono P Q (some e) f l = f e l

pub repost-Usable :
    (platform : Platform) (conn : Option Connection) (c : Connection) (e : Engine)
    → conn ≡ some c
    → Usable e
    → Accepts platform
    → Leaves Usable (repost platform conn e)
repost-Usable platform conn c e at u accepts = rw at (
    Leaves-mono (Posted c 1 e) Usable _ (λ e' posted. Usable-Posted c 1 e e' posted u)
      (repost-Posted platform c e u.free accepts))

pub destroy_query-Usable :
    (q : Query) (e : Engine) → Registered q → Usable e → Usable (destroy_query q e)
unfolding destroy_query
destroy_query-Usable q e r u = record {
  free = All-snoc e.free_query_q q u.free r;
  waiting = u.waiting;
  arrived = u.arrived;
  sending = u.sending;
}

pub post_rdma_read-Usable :
    (platform : Platform) (passive active : Query) (e : Engine) (c : Connection)
    → active.conn ≡ some c
    → Usable e
    → Accepts platform
    → Leaves Usable (post_rdma_read platform passive active e)
unfolding post_rdma_read post_send
post_rdma_read-Usable platform passive active e c at u accepts =
    let (mr, got) = reg_mr-some platform passive.msg_address platform.sizeof_msg c.pd e accepts in
    let (free, aq, pq, send_req_q, posted) = reg_msg-Posted platform c passive e u.free in
    rw (at, ◌>>=◌, got, accepts.sends)
      (record {
        free = free;
        waiting = subst (All Waiting) (sym pq) u.waiting;
        arrived = subst (All Arrived) (sym aq) u.arrived;
        sending = subst (All NonNull) (sym send_req_q) u.sending;
      })

deliver-Usable :
    (platform : Platform) (passive active : Query) (e : Engine) (opcode : Opcode)
    → Waiting passive
    → Arrived active
    → Usable e
    → Accepts platform
    → Leaves Usable (deliver platform passive active e opcode)
unfolding deliver cpy_eager_buff write_request destroy_query
deliver-Usable platform passive active e eager w a u accepts =
    rw (w.0, ◌>>=◌)
      (record {
        free =
            All-snoc (e.free_query_q ++ passive ∷ []) active
              (All-snoc e.free_query_q passive u.free w.1) a.1;
        waiting = u.waiting;
        arrived = u.arrived;
        sending = u.sending;
      })
deliver-Usable platform passive active e rdma_read w ((c, at), r) u accepts =
    post_rdma_read-Usable platform _ active e c at u accepts
deliver-Usable platform passive active e loop w a u accepts = u

pub arrive-Usable :
    (platform : Platform) (active : Query) (e : Engine) (o : Option Query)
    → IsFirst (λ p. is_matched_query e.ft_epoch active.msg p.msg) e.pq o
    → Arrived active
    → Usable e
    → Accepts platform
    → Leaves Usable (arrive platform active e o)
unfolding arrive
arrive-Usable platform active e (some passive) first a u accepts =
    deliver-Usable platform passive active (record e { pq = remove_query passive.address e.pq })
      active.msg.opcode (IsFirst-All Waiting _ e.pq passive first u.waiting) a
      (record {
        free = u.free;
        waiting = All-remove_query Waiting passive.address e.pq u.waiting;
        arrived = u.arrived;
        sending = u.sending;
      })
      accepts
arrive-Usable platform active e none misses a u accepts =
    elim (Bool-cases (leb e.ft_epoch active.msg.epoch)) [
      | inl live ↦ rw live (record {
        free = u.free;
        waiting = u.waiting;
        arrived = All-last Arrived e.aq active u.arrived a;
        sending = u.sending;
      })
      | inr stale ↦ rw stale u
    ]
