-- ===== src/Engine/Arrival/Dispatch.antt =====
-- The poller of src/fdmi.c and the invariant of the two queues.
use libibtl.Base.{refl, Option, none, some, List, arith, Bool-cases, inl, inr}
use libibtl.Base.Int.{ℤ}
use libibtl.Store.{Ptr}
use libibtl.Engine.{MsgType, comm_init, comm_fin, Query, Engine, Connection}
use libibtl.Engine.Queries.{Platform, destroy_query}
use libibtl.Engine.Post.{◌>>=◌, post_send_msg}
use libibtl.Engine.Recv.{
  complete, is_discarded, write_request, repost, on_recv_cq_wc_rdma_read, on_recv_cq_wc_send,
}
use libibtl.Engine.Send.{
  raise_flag, destroy_active, acknowledge, on_send_cq_wc_send, on_send_cq_wc_recv, WcOpcode,
  wc_recv, wc_rdma_read, wc_send, wc_other, dispatch, poll_sendrecv_cq,
}
use libibtl.Engine.Arrival.Frame.{
  Keeps, KeepsIf, KeepsIf-bind, KeepsIf-option, destroy_query-Keeps, write_request-Keeps,
  post_send_msg-Keeps, repost-Keeps,
}
use libibtl.Engine.Arrival.Settled.{
  Settled, SettledIf, KeepsIf-Settled, on_recv_cq_wc_recv-SettledIf,
}

on_recv_cq_wc_rdma_read-Keeps :
    (platform : Platform) (passive : Query) (e : Engine)
    → KeepsIf e (on_recv_cq_wc_rdma_read platform passive e)
unfolding on_recv_cq_wc_rdma_read destroy_query
on_recv_cq_wc_rdma_read-Keeps platform passive e =
    KeepsIf-option e passive.active_query_to_free _ (λ active.
      KeepsIf-bind e (write_request passive.request (complete active.msg) e) _
        (write_request-Keeps passive.request (complete active.msg) e)
        (λ e₁.
          KeepsIf-bind e₁ (post_send_msg platform _ e₁) _ (post_send_msg-Keeps platform _ e₁)
            (λ e₂. record { aq = refl; pq = refl; ft_epoch = refl })))

on_send_cq_wc_send-Keeps : (q : Query) (e : Engine) → KeepsIf e (on_send_cq_wc_send q e)
unfolding on_send_cq_wc_send raise_flag write_request destroy_query
on_send_cq_wc_send-Keeps q e = ground arith

-- the query and the one that it holds are free again
freed : Query → Engine → Engine
freed q e = destroy_query q (destroy_active q.active_query_to_free e)

freed-Keeps : (q : Query) (e : Engine) → Keeps e (freed q e)
unfolding freed destroy_query destroy_active
freed-Keeps q e = ground arith

acknowledge-Keeps : (ps : List Ptr) (e : Engine) → KeepsIf e (acknowledge ps e)
unfolding acknowledge raise_flag write_request
acknowledge-Keeps ps e = ground arith

repost-freed :
    (platform : Platform) (q : Query) (e : Engine) → KeepsIf e (repost platform q.conn (freed q e))
repost-freed platform q e =
    KeepsIf-bind e (some (freed q e)) _ (freed-Keeps q e) (λ e'. repost-Keeps platform q.conn e')

on_send_cq_wc_recv-Keeps :
    (platform : Platform) (q : Query) (e : Engine) → KeepsIf e (on_send_cq_wc_recv platform q e)
unfolding on_send_cq_wc_recv freed
on_send_cq_wc_recv-Keeps platform q e = elim (Bool-cases (is_discarded e.fdmi_state q.msg.op)) [
  | inl gone ↦ rw gone (repost-freed platform q e)
  | inr kept ↦ rw kept (
      KeepsIf-bind e (acknowledge e.send_req_q e) _ (acknowledge-Keeps e.send_req_q e)
        (λ e₁. repost-freed platform q e₁))
]

SettledIf-type :
    (type : MsgType) (a b : Option Engine)
    → SettledIf a
    → SettledIf b
    → SettledIf (elim type as (λ _. Option Engine) [ comm_init ↦ a | comm_fin ↦ b ])
SettledIf-type comm_init a b ha hb = ha
SettledIf-type comm_fin a b ha hb = hb

dispatch-SettledIf :
    (platform : Platform) (opcode : WcOpcode) (q : Query) (e : Engine)
    → Settled e
    → SettledIf (dispatch platform opcode q e)
unfolding dispatch on_recv_cq_wc_send
dispatch-SettledIf platform wc_recv q e s =
    SettledIf-type q.msg.type _ _ (on_recv_cq_wc_recv-SettledIf platform q e s)
      (KeepsIf-Settled e _ (on_send_cq_wc_recv-Keeps platform q e) s)
dispatch-SettledIf platform wc_rdma_read q e s =
    KeepsIf-Settled e _ (on_recv_cq_wc_rdma_read-Keeps platform q e) s
dispatch-SettledIf platform wc_send q e s =
    SettledIf-type q.msg.type _ _ (KeepsIf-Settled e _ (on_send_cq_wc_send-Keeps q e) s)
      (KeepsIf-Settled e (some (destroy_query q e)) (destroy_query-Keeps q e) s)
dispatch-SettledIf platform wc_other q e s = s

SettledIf-option :
    (o : Option Connection) (f : Connection → Option Engine)
    → ((c : Connection) → SettledIf (f c))
    → SettledIf (o >>= f)
SettledIf-option none f all = tt
SettledIf-option (some c) f all = all c

-- Whatever completion the poller takes, it ends the process or keeps the invariant: no waiting receive
-- matches a waiting message, and every waiting message is of the current epoch.
pub poll_sendrecv_cq-SettledIf :
    (platform : Platform) (itop : Ptr → ℤ) (opcode : WcOpcode) (q : Query) (e : Engine)
    → Settled e
    → SettledIf (poll_sendrecv_cq platform itop opcode q e)
unfolding poll_sendrecv_cq
poll_sendrecv_cq-SettledIf platform itop opcode q e s =
    SettledIf-option q.conn _ (λ c. dispatch-SettledIf platform opcode _ e s)
