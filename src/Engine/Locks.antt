-- ===== src/Engine/Locks.antt =====
-- src/fdmi.c, the mutexes: every queue has one, and each function takes and releases them in the order
-- that stands here. What is taken depends on the path through the function, which is an argument.
pub mod System
pub mod Ordered
pub mod Progress
pub mod Finish
use libibtl.Base.{ℕ, zero, suc, Bool, true, false, List, [], ◌∷◌, ◌++◌, if◌then◌else◌}

-- the queues, by the mutex in each
pub data Mutex : Type 0 where
  aq pq free_query_q reg_mr_q locked_request_sem_q send_req_q failed_prank_q disconnected_prank_q :
      Mutex

pub data Action : Type 0 where
  acquire : Mutex → Action
  release : Mutex → Action

-- fdmi_queue_lock, a use of the queue that takes no other mutex, fdmi_queue_unlock; so are
-- fdmi_queue_lock_enq, fdmi_queue_lock_deq and fdmi_queue_lock_remove
abbrev pub locked : Mutex → List Action
locked q = acquire q ∷ release q ∷ []

abbrev pub repeat : ℕ → List Action → List Action
repeat zero actions = []
repeat (suc n) actions = actions ++ repeat n actions

-- fdmi_reg_mr: `hit` where the region is registered already
unfoldable pub reg_mr_locks : (hit : Bool) → List Action
reg_mr_locks hit = locked reg_mr_q ++ (if hit then [] else locked reg_mr_q)

-- the paths of fdmi_create_query
pub data CreatePath : Type 0 where
  reused : CreatePath
  passive : CreatePath
  registered : (hit : Bool) → CreatePath

unfoldable pub create_query_locks : CreatePath → List Action
unfolding reg_mr_locks
create_query_locks reused = locked free_query_q
create_query_locks passive = locked free_query_q
create_query_locks (registered hit) = locked free_query_q ++ reg_mr_locks hit

unfoldable pub destroy_query_locks : List Action
destroy_query_locks = locked free_query_q

-- fdmi_cpy_eager_buff
unfoldable pub cpy_eager_buff_locks : List Action
unfolding destroy_query_locks
cpy_eager_buff_locks = locked locked_request_sem_q ++ (destroy_query_locks ++ destroy_query_locks)

-- fdmi_cpy_eager_buff2
unfoldable pub cpy_eager_buff2_locks : List Action
unfolding destroy_query_locks
cpy_eager_buff2_locks = locked locked_request_sem_q ++ destroy_query_locks

-- fdmi_init_passive_query: a query without a connection registers nothing
unfoldable pub init_passive_query_locks : (hit : Bool) → List Action
unfolding create_query_locks reg_mr_locks
init_passive_query_locks hit = create_query_locks passive ++ reg_mr_locks hit

-- what a message meets in the queue of the other side
pub data MatchPath : Type 0 where
  eager : MatchPath
  rdma_read : (msg_hit : Bool) → MatchPath
  other_opcode : MatchPath
  unmatched : MatchPath

unfoldable pub matched_locks : MatchPath → List Action
unfolding cpy_eager_buff_locks reg_mr_locks
matched_locks eager = cpy_eager_buff_locks
matched_locks (rdma_read msg_hit) = reg_mr_locks msg_hit
matched_locks other_opcode = []
matched_locks unmatched = []

-- fdmi_on_recv_cq_wc_recv, behind its first test
unfoldable pub on_recv_cq_wc_recv_locks : MatchPath → CreatePath → List Action
unfolding matched_locks create_query_locks
on_recv_cq_wc_recv_locks path create =
    (acquire aq ∷ acquire pq ∷ release aq ∷ release pq ∷ [])
    ++ (matched_locks path ++ create_query_locks create)

unfoldable pub arrived_locks : (hit : Bool) → MatchPath → List Action
unfolding cpy_eager_buff2_locks init_passive_query_locks reg_mr_locks
arrived_locks hit eager = cpy_eager_buff2_locks
arrived_locks hit (rdma_read msg_hit) = init_passive_query_locks hit ++ reg_mr_locks msg_hit
arrived_locks hit other_opcode = []
arrived_locks hit unmatched = init_passive_query_locks hit

-- fdmi_post_recv_msg_param
unfoldable pub post_recv_msg_param_locks : (hit : Bool) → MatchPath → List Action
unfolding arrived_locks
post_recv_msg_param_locks hit path =
    (acquire aq ∷ acquire pq ∷ []) ++ (arrived_locks hit path ++ (release pq ∷ release aq ∷ []))

-- fdmi_post_send_msg_param
unfoldable pub post_send_msg_param_locks : CreatePath → (hit : Bool) → List Action
unfolding create_query_locks reg_mr_locks
post_send_msg_param_locks create hit = create_query_locks create ++ reg_mr_locks hit

-- fdmi_on_send_cq_wc_recv, behind its first test
unfoldable pub on_send_cq_wc_recv_locks : (to_free : Bool) → CreatePath → List Action
unfolding destroy_query_locks create_query_locks
on_send_cq_wc_recv_locks to_free create =
    locked send_req_q
    ++ ((if to_free then destroy_query_locks else [])
        ++ (destroy_query_locks ++ create_query_locks create))

-- fdmi_on_send_cq_wc_send
unfoldable pub on_send_cq_wc_send_locks : (is_eager : Bool) → List Action
unfolding destroy_query_locks
on_send_cq_wc_send_locks is_eager =
    (if is_eager then locked locked_request_sem_q ++ locked send_req_q else [])
    ++ destroy_query_locks

-- fdmi_flush_query_qp, with the numbers of queries that it takes from the two queues
unfoldable pub flush_query_qp_locks : (from_aq from_pq : ℕ) → List Action
unfolding destroy_query_locks
flush_query_qp_locks from_aq from_pq =
    (acquire aq ∷ acquire pq ∷ [])
    ++ ((repeat from_aq destroy_query_locks ++ repeat from_pq destroy_query_locks)
        ++ (release aq ∷ release pq ∷ []))

-- the loop of RDMA_CM_EVENT_ESTABLISHED
unfoldable pub established_locks : List CreatePath → List Action
unfolding create_query_locks
established_locks [] = []
established_locks (create ∷ creates) = create_query_locks create ++ established_locks creates

-- What the threads of the engine call: the handlers of completions, those of connection events, and
-- the functions of the interface, each with its path.
pub data EngineCall : Type 0 where
  wc_recv_init : MatchPath → CreatePath → EngineCall
  wc_recv_fin : (to_free : Bool) → CreatePath → EngineCall
  wc_rdma_read : EngineCall
  wc_send_init : (is_eager : Bool) → EngineCall
  wc_send_fin : EngineCall
  event_established : List CreatePath → EngineCall
  event_disconnected : (needed : Bool) → EngineCall
  call_isend : CreatePath → (hit : Bool) → EngineCall
  call_irecv : (hit : Bool) → MatchPath → EngineCall
  call_iprobe : EngineCall
  call_flush_query_qp : (from_aq from_pq : ℕ) → EngineCall
  call_inform_loop : CreatePath → EngineCall
  call_get_failure_status : (failed : Bool) → EngineCall
  call_accept_failure_status : EngineCall

unfoldable pub locks_of : EngineCall → List Action
unfolding on_recv_cq_wc_recv_locks on_send_cq_wc_recv_locks destroy_query_locks
    on_send_cq_wc_send_locks established_locks post_send_msg_param_locks post_recv_msg_param_locks
    flush_query_qp_locks create_query_locks
locks_of (wc_recv_init path create) = on_recv_cq_wc_recv_locks path create
locks_of (wc_recv_fin to_free create) = on_send_cq_wc_recv_locks to_free create
locks_of wc_rdma_read = locked locked_request_sem_q ++ destroy_query_locks
locks_of (wc_send_init is_eager) = on_send_cq_wc_send_locks is_eager
locks_of wc_send_fin = destroy_query_locks
locks_of (event_established creates) = established_locks creates
locks_of (event_disconnected needed) = if needed then locked disconnected_prank_q else []
locks_of (call_isend create hit) = locked send_req_q ++ post_send_msg_param_locks create hit
locks_of (call_irecv hit path) = post_recv_msg_param_locks hit path
locks_of call_iprobe = locked aq
locks_of (call_flush_query_qp from_aq from_pq) = flush_query_qp_locks from_aq from_pq
locks_of (call_inform_loop create) = create_query_locks create
locks_of (call_get_failure_status failed) = if failed then locked failed_prank_q else []
locks_of call_accept_failure_status = locked failed_prank_q

-- a thread, as the calls that it makes
unfoldable pub locks_of_all : List EngineCall → List Action
unfolding locks_of
locks_of_all [] = []
locks_of_all (c ∷ cs) = locks_of c ++ locks_of_all cs
