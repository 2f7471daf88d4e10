-- ===== src/Engine/Arrival/Sound/Calls.antt =====
-- src/fdmi.c: fdmi_verbs_isend and fdmi_verbs_irecv keep what the poller relies on.
use libibtl.Base.{ℕ, ◌%◌, ◌^◌, ◌≡◌, refl, Option, none, some, [], ◌∷◌, ◌++◌, Option-cases, inl, inr}
use libibtl.Base.Int.{ℤ}
use libibtl.Store.{Ptr}
use libibtl.ProcMan.{Communicator, get_prank}
use libibtl.Engine.{
  Opcode, eager, rdma_read, loop, Connection, Mr, Query, Param, Engine, remove_query,
  is_matched_query2,
}
use libibtl.Engine.Queries.{
  Platform, reg_mr, reg_msg, find_mr, find_reusable, take_query, create_query,
}
use libibtl.Datatype.{reg_size}
use libibtl.Engine.Post.{◌>>=◌, Accepts, reg_mr-some}
use libibtl.Engine.Recv.{
  write_request, cpy_eager_buff2, passive_query, init_passive_query, take, wait_for, receive,
  post_recv_msg_param,
}
use libibtl.Engine.Send.{post_send_msg_param}
use libibtl.Engine.Api.{lower_flag, isend, irecv}
use libibtl.Engine.Matching.{IsFirst, get_matched_query2-IsFirst}
use libibtl.Engine.Arrival.Settled.{All-remove_query}
use libibtl.Engine.Arrival.Returns.{
  Registered, Waiting, Leaves, AllRegistered, IsFirst-All, Leaves-bind, find_reusable-Registered,
  init_passive_query-some,
}
use libibtl.Engine.Arrival.Sound.{
  NonNull, Arrived, Usable, All-last, destroy_query-Usable, post_rdma_read-Usable,
}
use libibtl.Engine.Arrival.Sound.Poll.{post_send_msg-Usable}

module _ (platform : Platform) where
  reg_mr-Usable :
      (addr size : ℕ) (pd : Ptr) (e : Engine) → Usable e → Usable (reg_mr platform addr size pd e).1
  unfolding reg_mr
  reg_mr-Usable addr size pd e u =
      elim (Option-cases (find_mr addr (size % 2 ^ 32) pd e.reg_mr_q)) [
        | inl new ↦ elim (Option-cases (platform.reg_mr pd addr (size % 2 ^ 32))) [
          | inl failed ↦ rw (reg_mr, new, failed) u
          | inr (mr, got) ↦
              rw (reg_mr, new, got)
                (record {
                  free = u.free;
                  waiting = u.waiting;
                  arrived = u.arrived;
                  sending = u.sending;
                })
        ]
        | inr (mr, cached) ↦ rw (reg_mr, cached) u
      ]

  take_query-Usable :
      (conn : Option Connection) (e : Engine) (o : Option Query)
      → Usable e
      → Usable (take_query platform conn e o).1
  unfolding take_query reg_msg
  take_query-Usable conn e (some q) u = record {
    free = All-remove_query Registered q.address e.free_query_q u.free;
    waiting = u.waiting;
    arrived = u.arrived;
    sending = u.sending;
  }
  take_query-Usable none e none u = u
  take_query-Usable (some c) e none u = reg_mr-Usable _ _ _ e u

  create_query-Usable :
      (conn : Option Connection) (e : Engine) → Usable e → Usable (create_query platform conn e).1
  unfolding create_query
  create_query-Usable conn e u = take_query-Usable conn e (find_reusable conn e.free_query_q) u

  -- a query for a connection has its message registered
  pub create_query-mr :
      (c : Connection) (e : Engine)
      → AllRegistered e
      → Accepts platform
      → (mr : Mr) × ((create_query platform (some c) e).0.msg_mr ≡ some mr)
  unfolding create_query take_query reg_msg
  create_query-mr c e all accepts = elim (Option-cases (find_reusable (some c) e.free_query_q)) [
    | inl new ↦
        let (mr, got) =
          reg_mr-some platform (platform.fresh_query e).msg_address platform.sizeof_msg c.pd e
            accepts in
        rw new (mr, got)
    | inr (q, free) ↦ rw free (find_reusable-Registered c e.free_query_q q all free)
  ]

  pub init_passive_query-Usable :
      (param : Param) (e : Engine) → Usable e → Usable (init_passive_query platform param e).1
  unfolding init_passive_query
  init_passive_query-Usable param e u = reg_mr-Usable _ _ _ _ (create_query-Usable none e u)

module _ (platform : Platform) (accepts : Accepts platform) where
  take-Usable :
      (param : Param) (active : Query) (e : Engine) (opcode : Opcode)
      → NonNull param.request
      → Arrived active
      → Usable e
      → Leaves Usable (take platform param active e opcode)
  unfolding take cpy_eager_buff2 write_request
  take-Usable param active e eager requested (c, r) u =
      rw (requested, ◌>>=◌)
        (destroy_query-Usable active _ r
          (record { free = u.free; waiting = u.waiting; arrived = u.arrived; sending = u.sending }))
  take-Usable param active e rdma_read requested ((c, at), r) u =
      let (mr, made) = init_passive_query-some platform param e accepts in
      rw (made, ◌>>=◌)
        (post_rdma_read-Usable platform _ active _ c at
          (init_passive_query-Usable platform param e u) accepts)
  take-Usable param active e loop requested a u = u

  wait_for-Usable :
      (param : Param) (e : Engine)
      → NonNull param.request
      → Usable e
      → Leaves Usable (wait_for platform param e)
  unfolding wait_for passive_query create_query
  wait_for-Usable param e requested u =
      let u' = init_passive_query-Usable platform param e u in
      let (mr, made) = init_passive_query-some platform param e accepts in
      rw (made, ◌>>=◌)
        (record {
          free = u'.free;
          waiting =
              All-last Waiting (init_passive_query platform param e).1.pq _ u'.waiting
                (requested, inl refl);
          arrived = u'.arrived;
          sending = u'.sending;
        })

  receive-Usable :
      (param : Param) (e : Engine) (o : Option Query)
      → NonNull param.request
      → IsFirst (λ a. is_matched_query2 e.ft_epoch param.rank param.tag param.comm_id a.msg) e.aq o
      → Usable e
      → Leaves Usable (receive platform param e o)
  unfolding receive
  receive-Usable param e (some active) requested first u =
      take-Usable param active (record e { aq = remove_query active.address e.aq })
        active.msg.opcode requested (IsFirst-All Arrived _ e.aq active first u.arrived)
        (record {
          free = u.free;
          waiting = u.waiting;
          arrived = All-remove_query Arrived active.address e.aq u.arrived;
          sending = u.sending;
        })
  receive-Usable param e none requested first u = wait_for-Usable param e requested u

  post_recv_msg_param-Usable :
      (param : Param) (e : Engine)
      → NonNull param.request
      → Usable e
      → Leaves Usable (post_recv_msg_param platform param e)
  unfolding post_recv_msg_param
  post_recv_msg_param-Usable param e requested u =
      receive-Usable param e _ requested
        (get_matched_query2-IsFirst e.ft_epoch param.rank param.tag param.comm_id e.aq) u

  lower_flag-Usable : (p : Ptr) (e : Engine) → NonNull p → Usable e → Leaves Usable (lower_flag p e)
  unfolding lower_flag write_request
  lower_flag-Usable p e requested u =
      rw requested
        (record { free = u.free; waiting = u.waiting; arrived = u.arrived; sending = u.sending })

  post_send_msg_param-Usable :
      (prank : ℤ) (c : Connection) (param : Param) (e : Engine)
      → Usable e
      → Leaves Usable (post_send_msg_param platform prank (some c) param e)
  unfolding post_send_msg_param create_query
  post_send_msg_param-Usable prank c param e u =
      let (mr, has) = create_query-mr platform c e u.free accepts in
      let (mr', got) =
        reg_mr-some platform param.addr (reg_size param.dtype param.count) c.pd
          (create_query platform (some c) e).1 accepts in
      rw (got, ◌>>=◌)
        (post_send_msg-Usable platform accepts _ _ c mr refl has
          (reg_mr-Usable platform _ _ c.pd _ (create_query-Usable platform (some c) e u)))

  pub isend-Usable :
      (prank : ℤ) (conn : Option Connection) (c : Connection) (param : Param) (e : Engine)
      → conn ≡ some c
      → NonNull param.request
      → Usable e
      → Leaves Usable (isend platform prank conn param e)
  unfolding isend
  isend-Usable prank conn c param e at requested u =
      let e₁ : Engine = record e { send_req_q = e.send_req_q ++ param.request ∷ [] } in
      rw at (
        Leaves-bind Usable Usable (lower_flag param.request e₁) _
          (lower_flag-Usable param.request e₁ requested (record {
            free = u.free;
            waiting = u.waiting;
            arrived = u.arrived;
            sending = All-last NonNull e.send_req_q param.request u.sending requested;
          }))
          (λ e' u'. post_send_msg_param-Usable prank c param e' u'))

  pub irecv-Usable :
      (comm : Communicator) (vsource source : ℤ) (param : Param) (e : Engine)
      → get_prank comm vsource ≡ some source
      → NonNull param.request
      → Usable e
      → Leaves Usable (irecv platform comm vsource param e)
  unfolding irecv
  irecv-Usable comm vsource source param e found requested u =
      rw (found, ◌>>=◌)
        (Leaves-bind Usable Usable (lower_flag param.request e) _
          (lower_flag-Usable param.request e requested u)
          (λ e' u'. post_recv_msg_param-Usable _ e' requested u'))
