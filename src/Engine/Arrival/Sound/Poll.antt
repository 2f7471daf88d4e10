-- ===== src/Engine/Arrival/Sound/Poll.antt =====
-- src/fdmi.c: fdmi_poll_sendrecv_cq takes any completion without an end of the process.
use libibtl.Base.{◌≡◌, refl, subst, Option, none, some, List, [], ◌∷◌, leb, Bool-cases, inl, inr}
use libibtl.Base.Int.{ℤ, to_u64}
use libibtl.Store.{Ptr}
use libibtl.Engine.{
  MsgType, comm_init, comm_fin, Connection, Mr, Active, Query, Engine, get_matched_query,
}
use libibtl.Engine.Queries.{Platform, destroy_query, as_query}
use libibtl.Engine.Post.{◌>>=◌, eager_buff_size, total_send_size, post_send, post_send_msg, Accepts}
use libibtl.Engine.Recv.{
  write_request, arrive, on_recv_cq_wc_recv, on_recv_cq_wc_rdma_read, on_recv_cq_wc_send,
}
use libibtl.Engine.Send.{
  raise_flag, destroy_active, acknowledge, on_send_cq_wc_send, on_send_cq_wc_recv, WcOpcode,
  wc_recv, wc_rdma_read, wc_send, wc_other, dispatch, poll_sendrecv_cq,
}
use libibtl.Engine.Failure.{is_discarded_never, on_recv_cq_wc_recv-arrive}
use libibtl.Engine.Matching.{All, get_matched_query-IsFirst}
use libibtl.Engine.Arrival.Settled.{Settled}
use libibtl.Engine.Arrival.Returns.{Registered, Connected, Leaves, All-snoc, Leaves-bind}
use libibtl.Engine.Arrival.Dispatch.{poll_sendrecv_cq-SettledIf}
use libibtl.Engine.Arrival.Sound.{
  NonNull, Arrived, Usable, repost-Usable, destroy_query-Usable, arrive-Usable,
}
use libibtl.Engine.Arrival.Sound.Ready.{
  Held, Ready, All-remove_flag, Leaves-opcode, Leaves-type, Leaves-option, Leaves-both,
}

module _ (platform : Platform) (accepts : Accepts platform) where
  on_recv_cq_wc_recv-Usable :
      (active : Query) (e : Engine)
      → Arrived active
      → Usable e
      → Leaves Usable (on_recv_cq_wc_recv platform active e)
  on_recv_cq_wc_recv-Usable active e ((c, at), r) u =
      rw (on_recv_cq_wc_recv-arrive platform active e) (
        Leaves-bind Usable Usable
          (arrive platform active e (get_matched_query e.ft_epoch active e.pq)) _
          (arrive-Usable platform active e _ (get_matched_query-IsFirst e.ft_epoch active e.pq)
            ((c, at), r) u accepts)
          (λ e' u'. repost-Usable platform active.conn c e' at u' accepts))

  pub post_send_msg-Usable :
      (q : Query) (e : Engine) (c : Connection) (mr : Mr)
      → q.conn ≡ some c
      → q.msg_mr ≡ some mr
      → Usable e
      → Leaves Usable (post_send_msg platform q e)
  unfolding post_send_msg post_send
  post_send_msg-Usable q e c mr at has u =
      elim (Bool-cases (leb (total_send_size q.msg) eager_buff_size)) [
        | inl small ↦
            rw (at, ◌>>=◌, has, small, accepts.sends)
              (record {
                free = u.free;
                waiting = u.waiting;
                arrived = u.arrived;
                sending = u.sending;
              })
        | inr large ↦
            rw (at, ◌>>=◌, has, large, accepts.sends)
              (record {
                free = u.free;
                waiting = u.waiting;
                arrived = u.arrived;
                sending = u.sending;
              })
      ]

  on_recv_cq_wc_rdma_read-Usable :
      (passive : Query) (e : Engine)
      → Ready wc_rdma_read comm_init passive
      → Usable e
      → Leaves Usable (on_recv_cq_wc_rdma_read platform passive e)
  unfolding on_recv_cq_wc_rdma_read write_request destroy_query
  on_recv_cq_wc_rdma_read-Usable passive e (requested, r, a, c, mr, held, at, has) u =
      simp (held, ◌>>=◌, requested)
        (Leaves-bind Usable Usable (post_send_msg platform _ _) _
          (post_send_msg-Usable _ _ c mr at has (record {
            free = u.free;
            waiting = u.waiting;
            arrived = u.arrived;
            sending = u.sending;
          }))
          (λ e' u'. record {
            free = All-snoc e'.free_query_q passive u'.free r;
            waiting = u'.waiting;
            arrived = u'.arrived;
            sending = u'.sending;
          }))

  on_send_cq_wc_send-Usable :
      (q : Query) (e : Engine)
      → NonNull q.request
      → Registered q
      → Usable e
      → Leaves Usable (on_send_cq_wc_send q e)
  unfolding on_send_cq_wc_send raise_flag write_request destroy_query
  on_send_cq_wc_send-Usable q e requested r u =
      Leaves-opcode q.msg.opcode _ _
        (rw (requested, ◌>>=◌)
          (record {
            free = All-snoc e.free_query_q q u.free r;
            waiting = u.waiting;
            arrived = u.arrived;
            sending = All-remove_flag q.request e.send_req_q u.sending;
          }))
        (destroy_query-Usable q e r u)

  destroy_active-Usable :
      (o : Option Active) (e : Engine) → Held o → Usable e → Usable (destroy_active o e)
  unfolding destroy_active
  destroy_active-Usable none e h u = u
  destroy_active-Usable (some a) e h u = destroy_query-Usable (as_query a) e h u

  acknowledge-Usable :
      (ps : List Ptr) (e : Engine) → e.send_req_q ≡ ps → Usable e → Leaves Usable (acknowledge ps e)
  unfolding acknowledge raise_flag write_request
  acknowledge-Usable [] e same u = u
  acknowledge-Usable (p ∷ ps) e same u =
      let sending = subst (All NonNull) same u.sending in
      rw sending.0
        (record { free = u.free; waiting = u.waiting; arrived = u.arrived; sending = sending.1 })

  on_send_cq_wc_recv-Usable :
      (q : Query) (e : Engine)
      → Connected q
      → Ready wc_recv comm_fin q
      → Usable e
      → Leaves Usable (on_send_cq_wc_recv platform q e)
  unfolding on_send_cq_wc_recv
  on_send_cq_wc_recv-Usable q e (c, at) (r, held) u =
      rw (is_discarded_never e.fdmi_state q.msg.op) (
        Leaves-bind Usable Usable (acknowledge e.send_req_q e) _
          (acknowledge-Usable e.send_req_q e refl u)
          (λ e' u'.
            repost-Usable platform q.conn c _ at
              (destroy_query-Usable q _ r (destroy_active-Usable q.active_query_to_free e' held u'))
              accepts))

  dispatch-Usable :
      (opcode : WcOpcode) (q : Query) (e : Engine)
      → Connected q
      → Ready opcode q.msg.type q
      → Usable e
      → Leaves Usable (dispatch platform opcode q e)
  unfolding dispatch on_recv_cq_wc_send
  dispatch-Usable wc_recv q e conn ready u =
      Leaves-type q.msg.type _ _ (λ is. on_recv_cq_wc_recv-Usable q e (conn, ready.0) u)
        (λ is. on_send_cq_wc_recv-Usable q e conn ready u)
  dispatch-Usable wc_rdma_read q e conn ready u = on_recv_cq_wc_rdma_read-Usable q e ready u
  dispatch-Usable wc_send q e conn ready u =
      Leaves-type q.msg.type _ _
        (λ is.
          let (requested, r) = subst (λ t. Ready wc_send t q) is ready in
          on_send_cq_wc_send-Usable q e requested r u)
        (λ is. destroy_query-Usable q e (subst (λ t. Ready wc_send t q) is ready) u)
  dispatch-Usable wc_other q e conn ready u = u

  poll_sendrecv_cq-Usable :
      (itop : Ptr → ℤ) (opcode : WcOpcode) (q : Query) (e : Engine)
      → Connected q
      → Ready opcode q.msg.type q
      → Usable e
      → Leaves Usable (poll_sendrecv_cq platform itop opcode q e)
  unfolding poll_sendrecv_cq
  poll_sendrecv_cq-Usable itop opcode q e (c, at) ready u =
      Leaves-option q.conn c _ at
        (dispatch-Usable opcode _ e (c, at) (moved opcode q.msg.type ready) u)
    where
      moved :
          (opcode : WcOpcode) (type : MsgType)
          → Ready opcode type q
          → Ready opcode type (record q { msg = record (q.msg) { rank = to_u64 (itop c.rcid) } })
      moved wc_recv type h = h
      moved wc_rdma_read type h = h
      moved wc_send comm_init h = h
      moved wc_send comm_fin h = h
      moved wc_other type h = h

-- Whatever completion the poller takes, while the network card takes what is posted, of a query that is what it should be for its kind, it does not end
-- the process, and afterwards the queues are again as they were supposed to be before: the queries in
-- them can be used again, no waiting receive matches a waiting message, and every waiting message is
-- of the current epoch.
pub poll_sendrecv_cq-Leaves :
    (platform : Platform) (itop : Ptr → ℤ) (opcode : WcOpcode) (q : Query) (e : Engine)
    → Connected q
    → Ready opcode q.msg.type q
    → Usable e
    → Settled e
    → Accepts platform
    → Leaves (λ e'. Usable e' × Settled e') (poll_sendrecv_cq platform itop opcode q e)
poll_sendrecv_cq-Leaves platform itop opcode q e conn ready u s accepts =
    Leaves-both _ (poll_sendrecv_cq-Usable platform accepts itop opcode q e conn ready u)
      (poll_sendrecv_cq-SettledIf platform itop opcode q e s)
