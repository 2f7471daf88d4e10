-- ===== src/Engine/Send.antt =====
-- The sending side of src/fdmi.c, the dispatch of completions, and the flush of the two queues.
use Prim.Native.Nat.{bit_and}
use libibtl.Base.{
  ℕ, Bool, true, false, Option, none, some, List, [], ◌∷◌, ◌++◌, ◌==◌, if◌then◌else◌,
}
use libibtl.Base.Int.{ℤ, to_u64}
use libibtl.Store.{Ptr, null}
use libibtl.Datatype.{reg_size}
use libibtl.Engine.{
  eager, rdma_read, comm_init, comm_fin, Connection, Active, Query, Param, remove_query,
  remove_flag, Engine,
}
use libibtl.Engine.Queries.{Platform, reg_mr, create_query, destroy_query, as_query}
use libibtl.Engine.Post.{◌>>=◌, post_send_msg}
use libibtl.Engine.Recv.{
  is_discarded, write_request, repost, on_recv_cq_wc_recv, on_recv_cq_wc_rdma_read,
  on_recv_cq_wc_send,
}

-- fdmi_post_send_msg_param: `prank` is the sender's rank, `conn` the connection to the destination
unfoldable pub post_send_msg_param :
    Platform → (prank : ℤ) → (conn : Option Connection) → Param → Engine → Option Engine
post_send_msg_param platform prank conn param e = do
  let (q, e₁) = create_query platform conn e
  c ← conn
  let (registered, e₂) = reg_mr platform param.addr (reg_size param.dtype param.count) c.pd e₁
  mr ← registered
  post_send_msg platform
      (record q {
        request = param.request;
        msg = record (q.msg) {
          type = comm_init;
          opcode = rdma_read;
          epoch = e.ft_epoch;
          addr = param.addr;
          rank = to_u64 prank;
          order = 0;
          tag = to_u64 param.tag;
          count = param.count;
          comm_id = param.comm_id;
          dtype = param.dtype;
          op = param.op;
          rdma_mr = mr;
        };
      })
      e₂

-- raises the flag of a request, and leaves the sender and the tag
unfoldable pub raise_flag : Ptr → Engine → Option Engine
unfolding write_request
raise_flag p e = write_request p (record (e.requests p) { request_flag = true }) e

-- fdmi_on_send_cq_wc_send: the message has left
unfoldable pub on_send_cq_wc_send : Query → Engine → Option Engine
unfolding raise_flag
on_send_cq_wc_send q e = elim (q.msg.opcode) [
  | eager ↦ do
    e₁ ← raise_flag q.request e
    some (
        destroy_query q (record e₁ {
          locked_request_sem_q = remove_flag q.address e₁.locked_request_sem_q;
          send_req_q = remove_flag q.request e₁.send_req_q;
        }))
  | _ ↦ some (destroy_query q e)
]

unfoldable pub destroy_active : Option Active → Engine → Engine
destroy_active none e = e
destroy_active (some a) e = destroy_query (as_query a) e

-- takes the oldest request that waits for an acknowledgement, and raises its flag; a NULL is skipped
unfoldable pub acknowledge : List Ptr → Engine → Option Engine
unfolding raise_flag
acknowledge [] e = some e
acknowledge (p ∷ ps) e =
    let e' : Engine = record e { send_req_q = ps } in if p == null then some e' else raise_flag p e'

-- fdmi_on_send_cq_wc_recv: the other side has read the data
unfoldable pub on_send_cq_wc_recv : Platform → Query → Engine → Option Engine
unfolding is_discarded destroy_active acknowledge
on_send_cq_wc_recv platform q e =
    if is_discarded e.fdmi_state q.msg.op
    then repost platform q.conn (destroy_query q (destroy_active q.active_query_to_free e))
    else (do
      e₁ ← acknowledge e.send_req_q e
      repost platform q.conn (destroy_query q (destroy_active q.active_query_to_free e₁)))

pub data WcOpcode : Type 0 where
  wc_recv wc_rdma_read wc_send wc_other : WcOpcode

-- The dispatch of fdmi_poll_sendrecv_cq: one completion of the network card. `itop` is
-- fdmi_rmap_itop_get, the rank of a connection's identifier.
unfoldable pub dispatch : Platform → WcOpcode → Query → Engine → Option Engine
dispatch platform wc_recv q e = elim (q.msg.type) [
  | comm_init ↦ on_recv_cq_wc_recv platform q e
  | comm_fin ↦ on_send_cq_wc_recv platform q e
]
dispatch platform wc_rdma_read q e = on_recv_cq_wc_rdma_read platform q e
dispatch platform wc_send q e = elim (q.msg.type) [
  | comm_init ↦ on_send_cq_wc_send q e
  | comm_fin ↦ on_recv_cq_wc_send q e
]
dispatch platform wc_other q e = some e

unfoldable pub poll_sendrecv_cq :
    Platform → (itop : Ptr → ℤ) → WcOpcode → Query → Engine → Option Engine
unfolding dispatch
poll_sendrecv_cq platform itop opcode q e = do
  c ← q.conn
  dispatch platform opcode (record q { msg = record (q.msg) { rank = to_u64 (itop c.rcid) } }) e

-- the flag FDMI_PRESV
abbrev pub fdmi_presv : ℕ
fdmi_presv = 4

unfoldable pub is_preserved : Query → Bool
is_preserved q = if bit_and q.msg.op fdmi_presv == 0 then false else true

-- One of the two loops of fdmi_flush_query_qp: `rest` is what the iterator has still to visit, and the
-- result the queue and the free list. The iterator stands behind the query that is removed.
unfoldable pub flush_queue : (rest queue free : List Query) → List Query × List Query
unfolding is_preserved
flush_queue [] queue free = (queue, free)
flush_queue (q ∷ rest) queue free =
    if is_preserved q
    then flush_queue rest queue free
    else flush_queue rest (remove_query q.address queue) (free ++ q ∷ [])

-- fdmi_flush_query_qp
unfoldable pub flush_query_qp : Engine → Engine
unfolding flush_queue
flush_query_qp e =
    let (aq, free₁) = flush_queue e.aq e.aq e.free_query_q in
    let (pq, free₂) = flush_queue e.pq e.pq free₁ in
    record e { aq = aq; pq = pq; free_query_q = free₂ }
