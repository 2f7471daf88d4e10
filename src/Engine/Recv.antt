-- ===== src/Engine/Recv.antt =====
-- The receiving side of src/fdmi.c: a message arrives, a receive is posted, data is copied or read.
use Prim.Native.Nat.{bit_or}
use libibtl.Base.{ℕ, Bool, true, false, Option, none, some, [], ◌∷◌, ◌++◌, ◌==◌, leb, if◌then◌else◌}
use libibtl.Base.Int.{to_u64, to_int}
use libibtl.Store.{Ptr, null}
use libibtl.Datatype.{scatter, reg_size}
use libibtl.Engine.{
  Opcode, eager, rdma_read, loop, comm_fin, FdmiState, failure, Mr, Connection, Msg, Query, Request,
  Param, get_matched_query, get_matched_query2, remove_query, remove_flag, Engine, set_request,
}
use libibtl.Engine.Queries.{Platform, reg_mr, create_query, destroy_query, as_query, as_active}
use libibtl.Engine.Post.{◌>>=◌, post_recv_msg, post_send_msg, post_rdma_read}

-- the flag FDMI_FORCE
abbrev pub fdmi_force : ℕ
fdmi_force = 2

-- the completed request: the flag is raised, and the sender and the tag are written
abbrev pub complete : Msg → Request
complete m = record { prank = to_int m.rank; tag = to_int m.tag; request_flag = true }

-- the test at the head of the handlers of arrived messages, on a failure
unfoldable pub is_discarded : FdmiState → (op : ℕ) → Bool
is_discarded failure op = bit_or op fdmi_force == 0
is_discarded _ op = false

-- `*(query->request_flag) = 1` and the like: the process ends on a NULL pointer
unfoldable pub write_request : Ptr → Request → Engine → Option Engine
write_request p r e =
    if p == null then none else some (record e { requests = set_request p r e.requests })

-- fdmi_cpy_eager_buff
unfoldable pub cpy_eager_buff : (passive active : Query) → Engine → Option Engine
unfolding write_request
cpy_eager_buff passive active e = do
  e₁ ← write_request passive.request (complete active.msg) e
  let e₂ = record e₁ {
    memory =
        scatter active.msg.eager_buff 0 passive.msg.dtype active.msg.count e.memory
          passive.msg.addr;
    locked_request_sem_q = remove_flag passive.address e.locked_request_sem_q;
  }
  some (destroy_query active (destroy_query passive e₂))

-- fdmi_cpy_eager_buff2, and the writes of its caller to the request. The flag that it looks for in
-- locked_request_sem_q is a local variable of its own, at an address that no queue holds.
unfoldable pub cpy_eager_buff2 : Param → (active : Query) → Engine → Option Engine
unfolding write_request
cpy_eager_buff2 param active e = do
  e₁ ← write_request param.request (complete active.msg) e
  let e₂ = record e₁ {
    memory = scatter active.msg.eager_buff 0 param.dtype active.msg.count e.memory param.addr;
  }
  some (destroy_query active e₂)

-- the branches on the opcode of a message that matches a waiting receive
unfoldable pub deliver : Platform → (passive active : Query) → Engine → Opcode → Option Engine
unfolding cpy_eager_buff
deliver platform passive active e eager = cpy_eager_buff passive active e
deliver platform passive active e rdma_read =
    post_rdma_read platform (record passive { active_query_to_free = some (as_active active) })
      active e
deliver platform passive active e loop = some e

-- the search of fdmi_on_recv_cq_wc_recv for a waiting receive, and what it does with the result
unfoldable pub arrive : Platform → (active : Query) → Engine → Option Query → Option Engine
unfolding deliver
arrive platform active e (some passive) =
    deliver platform passive active (record e { pq = remove_query passive.address e.pq })
      active.msg.opcode
arrive platform active e none =
    some (if leb e.ft_epoch active.msg.epoch then record e { aq = e.aq ++ active ∷ [] } else e)

-- `fdmi_post_recv_msg(fdmi_create_query(conn))`
unfoldable pub repost : Platform → Option Connection → Engine → Option Engine
repost platform conn e = let (q, e') = create_query platform conn e in post_recv_msg platform q e'

-- fdmi_on_recv_cq_wc_recv: a message has arrived
unfoldable pub on_recv_cq_wc_recv : Platform → (active : Query) → Engine → Option Engine
unfolding is_discarded arrive
on_recv_cq_wc_recv platform active e =
    if is_discarded e.fdmi_state active.msg.op then some (destroy_query active e) else (do
      e₁ ← arrive platform active e (get_matched_query e.ft_epoch active e.pq)
      repost platform active.conn e₁)

-- fdmi_on_recv_cq_wc_rdma_read: the data has been read, and the sender is told
unfoldable pub on_recv_cq_wc_rdma_read : Platform → (passive : Query) → Engine → Option Engine
unfolding write_request
on_recv_cq_wc_rdma_read platform passive e = do
  active ← passive.active_query_to_free
  let fin = record active { msg = record (active.msg) { type = comm_fin } }
  e₁ ← write_request passive.request (complete active.msg) e
  e₂ ← post_send_msg platform (as_query fin) e₁
  some (
      destroy_query passive
        (record e₂ { locked_request_sem_q = remove_flag passive.address e₂.locked_request_sem_q }))

-- fdmi_on_recv_cq_wc_send
unfoldable pub on_recv_cq_wc_send : (active_query_to_free : Query) → Engine → Option Engine
on_recv_cq_wc_send active e = some (destroy_query active e)

-- what fdmi_init_passive_query writes to a query
unfoldable pub passive_query : Param → Query → Mr → Query
passive_query param q mr = record q {
  request = param.request;
  msg = record (q.msg) {
    addr = param.addr;
    rank = to_u64 param.rank;
    order = 0;
    tag = to_u64 param.tag;
    count = param.count;
    dtype = param.dtype;
    comm_id = param.comm_id;
    op = param.op;
    rdma_mr = mr;
  };
}

-- fdmi_init_passive_query. `type`, `opcode`, `epoch` and the eager fields keep what they held.
-- There is no query where the registration of the buffer ends the process.
unfoldable pub init_passive_query : Platform → Param → Engine → Option Query × Engine
unfolding passive_query
init_passive_query platform param e =
    let (q, e₁) = create_query platform none e in
    let (registered, e₂) =
      reg_mr platform param.addr (reg_size param.dtype param.count) platform.domain_pd e₁ in
    (elim registered [ none ↦ none | some mr ↦ some (passive_query param q mr) ], e₂)

-- the branches on the opcode of a message that had arrived before the receive
unfoldable pub take : Platform → Param → (active : Query) → Engine → Opcode → Option Engine
unfolding cpy_eager_buff2 init_passive_query
take platform param active e eager = cpy_eager_buff2 param active e
take platform param active e rdma_read =
    let (created, e') = init_passive_query platform param e in
    (do
      passive ← created
      post_rdma_read platform (record passive { active_query_to_free = some (as_active active) })
          active e')
take platform param active e loop = some e

-- the receive waits, in the current epoch
unfoldable pub wait_for : Platform → Param → Engine → Option Engine
unfolding init_passive_query
wait_for platform param e =
    let (created, e') = init_passive_query platform param e in
    (do
      q ← created
      let passive = record q { msg = record (q.msg) { epoch = e'.ft_epoch } }
      some (record e' { pq = e'.pq ++ passive ∷ [] }))

unfoldable pub receive : Platform → Param → Engine → Option Query → Option Engine
unfolding take wait_for
receive platform param e (some active) =
    take platform param active (record e { aq = remove_query active.address e.aq })
      active.msg.opcode
receive platform param e none = wait_for platform param e

-- fdmi_post_recv_msg_param: a receive is posted
unfoldable pub post_recv_msg_param : Platform → Param → Engine → Option Engine
unfolding receive
post_recv_msg_param platform param e =
    receive platform param e (get_matched_query2 e.ft_epoch param.rank param.tag param.comm_id e.aq)
