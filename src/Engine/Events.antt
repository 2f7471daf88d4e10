-- ===== src/Engine/Events.antt =====
-- src/fdmi.c, the events of connections: fdmi_poll_event_recv_channel, with fdmi_create_connection,
-- fdmi_create_peer, fdmi_is_connected and the registration in fdmi_verbs_connect. There is one domain, and
-- no call of the connection manager fails. A handler yields `none` where it follows a NULL pointer, leaves
-- an array, or ends the process.
pub mod Established
use libibtl.Base.{
  ℕ, zero, suc, ◌+◌, Bool, true, false, Option, none, some, List, [], ◌∷◌, ◌++◌, ◌==◌,
  if◌then◌else◌, get_elem?, set, ltb, length,
}
use libibtl.Base.Int.{ℤ, pos, minus_one, eq_ℤ}
use libibtl.Store.{Ptr}
use libibtl.Hashtable.{Hashtable}
use libibtl.ProcMan.{read_at, write_at}
use libibtl.ProcMan.Itop.{rmap_itop_add, rmap_itop_get}
use libibtl.ProcMan.Spare.{FtMsg, need_update_ft_msg}
use libibtl.Engine.{Connection, Query, Engine, FdmiState, failure}
use libibtl.Engine.Queries.{Platform}
use libibtl.Engine.Post.{◌>>=◌}
use libibtl.Engine.Recv.{repost}

-- FDMI_MAX_PENDING_RECV_QUERY
abbrev pub max_pending_recv_query : ℕ
max_pending_recv_query = 10

-- struct fdmi_peer, with its connection of the one domain, NULL at first
pub record Peer : Type 0 where
  pub conn : Option Connection
  pub is_connected : Bool
  pub on_connecting_lock : Bool

-- fdmi_create_peer
abbrev pub create_peer : Peer
create_peer = record { conn = none; is_connected = false; on_connecting_lock = false }

-- the events of the connection manager, each with the identifier that it comes with
pub data CmEvent : Type 0 where
  connect_request established disconnected addr_resolved route_resolved rejected unhandled :
      (id : Ptr) → CmEvent

-- the calls of the connection manager
pub data CmCall : Type 0 where
  rdma_reject rdma_accept rdma_resolve_route rdma_connect rdma_ack_cm_event : (id : Ptr) → CmCall

-- What the handlers use of the global variables, and whether the domain has its context; the calls that
-- were made, latest first.
pub record Node : Type 0 where
  pub engine : Engine
  pub has_context : Bool
  pub hstb_itop : Hashtable
  pub connected_rank : ℕ
  pub peers : List Peer
  pub is_recv_cq_polling : Bool
  pub ft_msg : FtMsg
  pub disconnected_prank_q : List ℤ
  pub calls : List CmCall

abbrev pub call : CmCall → Node → Node
call c n = record n { calls = c ∷ n.calls }

-- the first identifier gets the domain its context, with the two queues of fdmi_create_query_qp, empty
unfoldable pub with_context : Node → Node
with_context n =
    let e = n.engine in
    let empty : List Query = [] in
    record n {
      engine = record e {
        aq = if n.has_context then e.aq else empty;
        pq = if n.has_context then e.pq else empty;
      };
      has_context = true;
    }

-- fdmi_create_qp: it ends the process where a verb fails or the device is not that of the context
unfoldable pub create_qp : Platform → (id : Ptr) → Node → Option Node
unfolding with_context
create_qp platform id n =
    if platform.create_qp n.has_context id then some (with_context n) else none

-- fdmi_create_connection: `malloc` returns the address `fresh`
unfoldable pub create_connection : Platform → (fresh id : Ptr) → Connection
create_connection platform fresh id = record { address = fresh; rcid = id; pd = platform.domain_pd }

-- fdmi_is_connected
unfoldable pub is_connected : List Peer → (prank : ℤ) → Option Bool
unfolding read_at
is_connected peers prank =
    if eq_ℤ prank minus_one
    then some true
    else (do peer ← read_at peers prank; some peer.is_connected)

-- RDMA_CM_EVENT_CONNECT_REQUEST
unfoldable pub on_connect_request : Platform → (fresh id : Ptr) → Node → Option Node
unfolding create_connection rmap_itop_add write_at read_at create_qp
on_connect_request platform fresh id n = do
  connected_peer ← read_at n.peers (pos n.connected_rank)
  let conn = create_connection platform fresh id
  let accepted : Option Node = (do
    n' ← create_qp platform id n
    peers ←
        write_at n'.peers (pos n'.connected_rank)
          (record connected_peer { conn = some conn; on_connecting_lock = true })
    itop ← rmap_itop_add conn.rcid (pos n'.connected_rank) n'.hstb_itop
    some (
        call (rdma_accept id)
          (record n' { peers = peers; hstb_itop = itop; connected_rank = n'.connected_rank + 1 })))
  if connected_peer.on_connecting_lock then some (call (rdma_reject id) n) else accepted

-- for (i = 0; i < FDMI_MAX_PENDING_RECV_QUERY; i++)
unfoldable pub post_pending : (times : ℕ) → Platform → Option Connection → Engine → Option Engine
unfolding repost
post_pending zero platform conn e = some e
post_pending (suc times) platform conn e = do
  e' ← repost platform conn e
  post_pending times platform conn e'

-- RDMA_CM_EVENT_ESTABLISHED
unfoldable pub on_established : Platform → (id : Ptr) → Node → Option Node
unfolding rmap_itop_get read_at write_at post_pending
on_established platform id n = do
  rank ← rmap_itop_get id n.hstb_itop
  peer ← read_at n.peers rank
  e ← post_pending max_pending_recv_query platform peer.conn n.engine
  peers ← write_at n.peers rank (record peer { is_connected = true })
  some (record n { engine = e; peers = peers; is_recv_cq_polling = true })

-- RDMA_CM_EVENT_DISCONNECTED, as far as its first `break`. `frank` is a local variable that is not set.
unfoldable pub on_disconnected : (frank : ℕ) (id : Ptr) → Node → Option Node
unfolding rmap_itop_get need_update_ft_msg
on_disconnected frank id n =
    if need_update_ft_msg frank n.ft_msg
    then (do
      rank ← rmap_itop_get id n.hstb_itop
      some (record n {
        engine = record (n.engine) { fdmi_state = failure };
        disconnected_prank_q = n.disconnected_prank_q ++ rank ∷ [];
      }))
    else some n

-- `peers[rank]->conn[domain_id] = conn`, where it is NULL
abbrev pub resolve :
    (id : Ptr) → Connection → (rank : ℤ) → Node → Peer → Option Connection → Option Node
unfolding write_at
resolve id conn rank n peer none = do
  peers ← write_at n.peers rank (record peer { conn = some conn })
  some (call (rdma_resolve_route id) (record n { peers = peers }))
resolve id conn rank n peer (some old) = some n

-- RDMA_CM_EVENT_ADDR_RESOLVED
unfoldable pub on_addr_resolved : Platform → (fresh id : Ptr) → Node → Option Node
unfolding rmap_itop_get read_at resolve create_connection create_qp
on_addr_resolved platform fresh id n = do
  n' ← create_qp platform id n
  rank ← rmap_itop_get id n'.hstb_itop
  peer ← read_at n'.peers rank
  resolve id (create_connection platform fresh id) rank n' peer peer.conn

-- the switch of fdmi_poll_event_recv_channel
unfoldable pub on_event : Platform → (fresh : Ptr) (frank : ℕ) → CmEvent → Node → Option Node
unfolding on_connect_request on_established on_disconnected on_addr_resolved
on_event platform fresh frank (connect_request id) n = on_connect_request platform fresh id n
on_event platform fresh frank (established id) n = on_established platform id n
on_event platform fresh frank (disconnected id) n = on_disconnected frank id n
on_event platform fresh frank (addr_resolved id) n = on_addr_resolved platform fresh id n
on_event platform fresh frank (route_resolved id) n = some (call (rdma_connect id) n)
on_event platform fresh frank (rejected id) n = some n
on_event platform fresh frank (unhandled id) n = some n

abbrev pub id_of : CmEvent → Ptr
id_of (connect_request id) = id
id_of (established id) = id
id_of (disconnected id) = id
id_of (addr_resolved id) = id
id_of (route_resolved id) = id
id_of (rejected id) = id
id_of (unhandled id) = id

-- one round of fdmi_poll_event_recv_channel
unfoldable pub poll_event_recv_channel :
    Platform → (fresh : Ptr) (frank : ℕ) → CmEvent → Node → Option Node
unfolding on_event
poll_event_recv_channel platform fresh frank event n = do
  n' ← on_event platform fresh frank event n
  some (call (rdma_ack_cm_event (id_of event)) n')

-- fdmi_verbs_connect, as far as its wait: the new identifier is entered under the rank
unfoldable pub verbs_connect : (rank : ℕ) (new_rcid : Ptr) → Node → Option Node
unfolding rmap_itop_add
verbs_connect rank new_rcid n = do
  itop ← rmap_itop_add new_rcid (pos rank) n.hstb_itop
  some (record n { hstb_itop = itop })
