-- ===== src/Engine.antt =====
-- The message engine of src/fdmi.c: the structures, and the matching of messages with receives.
--
-- A queue is the list of its items; a query is told apart by its
-- address. A completion hands the query that was posted back to the engine, so a query that the
-- network holds is a value in the trace of posted work.
pub mod Queries
pub mod Post
pub mod Recv
pub mod Send
pub mod Api
pub mod Matching
pub mod Failure
pub mod Flush
pub mod Events
pub mod Locks
pub mod Linked
pub mod Arrival
pub mod Transfer
use libibtl.Base.{
  ℕ, Bool, true, false, ◌||◌, ◌&&◌, not, Option, none, some, List, [], ◌∷◌, ltb, ◌==◌,
  if◌then◌else◌,
}
use libibtl.Base.Int.{ℤ, minus_one, to_u64, eq_ℤ}
use libibtl.Store.{Ptr}
use libibtl.Datatype.{Datatype, Memory}

pub data Opcode : Type 0 where
  eager rdma_read loop : Opcode

pub data MsgType : Type 0 where
  comm_init comm_fin : MsgType

pub data FdmiState : Type 0 where
  compute failure recovery joining : FdmiState

-- struct ibv_mr of the verbs library, with the fields that the code reads
pub record Mr : Type 0 where
  pub pd : Ptr
  pub addr : ℕ
  pub length : ℕ
  pub key : ℕ

-- struct fdmi_connection: the address, and the fields that the engine reads
pub record Connection : Type 0 where
  pub address : Ptr
  pub rcid : Ptr
  pub pd : Ptr

-- struct fdmi_msg; `rank` and `tag` are 64-bit, and `eager_buff` is indexed from 0
pub record Msg : Type 0 where
  pub type : MsgType
  pub opcode : Opcode
  pub epoch : ℕ
  pub addr : ℕ
  pub rank : ℕ
  pub order : ℕ
  pub tag : ℕ
  pub op : ℕ
  pub count : ℕ
  pub comm_id : ℕ
  pub dtype : Datatype
  pub rdma_mr : Mr
  pub eager_size : ℕ
  pub eager_buff : Memory

-- a query without a query of its own to free
pub record Active : Type 0 where
  pub address : Ptr
  pub conn : Option Connection
  pub msg : Msg
  pub msg_address : ℕ
  pub msg_mr : Option Mr

-- struct fdmi_query; `request_flag` points into `request`, so that one field stands for both
pub record Query : Type 0 where
  pub address : Ptr
  pub conn : Option Connection
  pub msg : Msg
  pub msg_address : ℕ
  pub msg_mr : Option Mr
  pub active_query_to_free : Option Active
  pub request : Ptr

-- struct fdmi_request: what the engine writes to it
pub record Request : Type 0 where
  pub prank : ℤ
  pub tag : ℤ
  pub request_flag : Bool

-- struct fdmi_post_send_param and struct fdmi_post_recv_param. `op` is never set by their callers:
-- it is what the stack held.
pub record Param : Type 0 where
  pub rank : ℤ
  pub tag : ℤ
  pub addr : ℕ
  pub count : ℕ
  pub dtype : Datatype
  pub comm_id : ℕ
  pub request : Ptr
  pub op : ℕ

-- FMI_ANY_SOURCE and FMI_ANY_TAG, as an `int` and converted to 64 bits
abbrev pub any_source : ℤ
any_source = minus_one

abbrev pub any_tag : ℤ
any_tag = minus_one

abbrev pub any_source_u64 : ℕ
any_source_u64 = to_u64 any_source

abbrev pub any_tag_u64 : ℕ
any_tag_u64 = to_u64 any_tag

-- fdmi_is_matched_query: `msg2` is the receive
unfoldable pub is_matched_query : (ft_epoch : ℕ) (msg1 msg2 : Msg) → Bool
is_matched_query ft_epoch msg1 msg2 =
    if ltb msg2.epoch ft_epoch
    then false
    else if not (msg1.comm_id == msg2.comm_id)
    then false
    else if not (
        (msg1.rank == any_source_u64)
        || ((msg2.rank == any_source_u64) || (msg1.rank == msg2.rank)))
    then false
    else if not ((msg1.tag == any_tag_u64) || ((msg2.tag == any_tag_u64) || (msg1.tag == msg2.tag)))
    then false
    else true

-- fdmi_is_matched_query2: a receive that is being posted, against a message that has arrived
unfoldable pub is_matched_query2 : (ft_epoch : ℕ) (rank tag : ℤ) (comm_id : ℕ) (msg : Msg) → Bool
is_matched_query2 ft_epoch rank tag comm_id msg =
    if ltb msg.epoch ft_epoch
    then false
    else if not (comm_id == msg.comm_id)
    then false
    else if not
        (eq_ℤ rank any_source || ((msg.rank == any_source_u64) || (to_u64 rank == msg.rank)))
    then false
    else if not (eq_ℤ tag any_tag || ((msg.tag == any_tag_u64) || (to_u64 tag == msg.tag)))
    then false
    else true

-- fdmi_get_matched_query: the first receive in the queue that matches
unfoldable pub get_matched_query : (ft_epoch : ℕ) → Query → List Query → Option Query
get_matched_query ft_epoch query [] = none
get_matched_query ft_epoch query (tmp ∷ queue) =
    if is_matched_query ft_epoch query.msg tmp.msg
    then some tmp
    else get_matched_query ft_epoch query queue

-- fdmi_get_matched_query2: the first message in the queue that matches
unfoldable pub get_matched_query2 :
    (ft_epoch : ℕ) (rank tag : ℤ) (comm_id : ℕ) → List Query → Option Query
get_matched_query2 ft_epoch rank tag comm_id [] = none
get_matched_query2 ft_epoch rank tag comm_id (tmp ∷ queue) =
    if is_matched_query2 ft_epoch rank tag comm_id tmp.msg
    then some tmp
    else get_matched_query2 ft_epoch rank tag comm_id queue

-- fdmi_queue_remove on a queue of queries: the first one at the address
unfoldable pub remove_query : Ptr → List Query → List Query
remove_query p [] = []
remove_query p (q ∷ qs) = if q.address == p then qs else q ∷ remove_query p qs

-- fdmi_queue_lock_remove on a queue of request flags
unfoldable pub remove_flag : Ptr → List Ptr → List Ptr
remove_flag p [] = []
remove_flag p (r ∷ rs) = if r == p then rs else r ∷ remove_flag p rs

-- Work that was handed to the network card.
pub data Work : Type 0 where
  recv_posted : Connection → Query → Work
  send_posted : Connection → Query → (sge : List (ℕ × ℕ)) → Work
  read_posted : Connection → Query → (remote local length : ℕ) → Work

-- The global variables of fdmi.c that the engine uses, the domain's two queues, the user's memory and
-- requests, and the trace of posted work, latest first. `counter`, `ct` and `conc`, which nothing
-- reads, are left out.
pub record Engine : Type 0 where
  pub ft_epoch : ℕ
  pub fdmi_state : FdmiState
  pub aq : List Query
  pub pq : List Query
  pub free_query_q : List Query
  pub send_req_q : List Ptr
  pub locked_request_sem_q : List Ptr
  pub reg_mr_q : List Mr
  pub requests : Ptr → Request
  pub memory : Memory
  pub posted : List Work

unfoldable pub set_request : Ptr → Request → (Ptr → Request) → Ptr → Request
set_request p r requests a = if a == p then r else requests a
