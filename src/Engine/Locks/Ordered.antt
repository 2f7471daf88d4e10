-- ===== src/Engine/Locks/Ordered.antt =====
-- Every call of src/fdmi.c takes the mutexes upwards in one order, releases what it has, and ends
-- without any.
use libibtl.Base.{
  ℕ, zero, suc, ◌<◌, ◌≡◌, refl, sym, subst, Bool, true, false, List, [], ◌∷◌, ◌++◌, arith, ◌==◌,
  if◌then◌else◌, append_assoc,
}
use libibtl.Engine.Locks.{
  Mutex, aq, pq, free_query_q, reg_mr_q, locked_request_sem_q, send_req_q, failed_prank_q,
  disconnected_prank_q, Action, acquire, release, locked, repeat, reg_mr_locks, CreatePath, reused,
  passive, registered, create_query_locks, destroy_query_locks, cpy_eager_buff_locks,
  cpy_eager_buff2_locks, init_passive_query_locks, MatchPath, eager, rdma_read, other_opcode,
  unmatched, matched_locks, on_recv_cq_wc_recv_locks, arrived_locks, post_recv_msg_param_locks,
  post_send_msg_param_locks, on_send_cq_wc_recv_locks, on_send_cq_wc_send_locks,
  flush_query_qp_locks, established_locks, EngineCall, wc_recv_init, wc_recv_fin, wc_rdma_read,
  wc_send_init, wc_send_fin, event_established, event_disconnected, call_isend, call_irecv,
  call_iprobe, call_flush_query_qp, call_inform_loop, call_get_failure_status,
  call_accept_failure_status, locks_of, locks_of_all,
}
use libibtl.Engine.Locks.System.{place, has, without}

-- a mutex stands behind all that are held
abbrev pub Above : Mutex → List Mutex → Type 0
Above m [] = Unit {0}
Above m (x ∷ held) = (place x < place m) × Above m held

abbrev pub Ordered : (held : List Mutex) → List Action → Type 0
Ordered held [] = held ≡ []
Ordered held (acquire m ∷ actions) = Above m held × Ordered (m ∷ held) actions
Ordered held (release m ∷ actions) = (has m held ≡ true) × Ordered (without m held) actions

-- actions that end with the mutexes that they begin with
record Balanced (held : List Mutex) (actions : List Action) : Type 0 where
  keep : (later : List Action) → Ordered held later → Ordered held (actions ++ later)

module _ {held : List Mutex} where
  none-Balanced : Balanced held []
  none-Balanced = record { keep = λ later o. o }

  append-Balanced : {a b : List Action} → Balanced held a → Balanced held b → Balanced held (a ++ b)
  append-Balanced {a} {b} of_a of_b = record {
    keep = λ later o.
        subst (Ordered held) (sym (append_assoc a b later))
          (of_a.keep (b ++ later) (of_b.keep later o));
  }

  locked-Balanced : (m : Mutex) → Above m held → Balanced held (locked m)
  locked-Balanced m above = record {
    keep = λ later o.
        let own : (place m == place m) ≡ true = ground arith in (above, (rw own refl, rw own o));
  }

  repeat-Balanced : (n : ℕ) {a : List Action} → Balanced held a → Balanced held (repeat n a)
  repeat-Balanced zero of_a = none-Balanced
  repeat-Balanced (suc n) of_a = append-Balanced of_a (repeat-Balanced n of_a)

  if-Balanced : (b : Bool) {a : List Action} → Balanced held a → Balanced held (if b then a else [])
  if-Balanced true of_a = of_a
  if-Balanced false of_a = none-Balanced

-- Actions with the mutexes of the two queues, which `last` releases.
both-Balanced :
    {actions : List Action} (last : List Action)
    → ((later : List Action) → Ordered [] later → Ordered (pq ∷ aq ∷ []) (last ++ later))
    → Balanced (pq ∷ aq ∷ []) actions
    → Balanced [] ((acquire aq ∷ acquire pq ∷ []) ++ (actions ++ last))
both-Balanced {actions} last closes inner = record {
  keep = λ later o. (
    tt,
    (
      (omega arith, tt),
      subst (Ordered (pq ∷ aq ∷ [])) (sym (append_assoc actions last later))
          (inner.keep (last ++ later) (closes later o)),
    ),
  );
}

-- Where only the mutexes of the two queues are held, the others may be taken.
module _ {held : List Mutex} (leaf : (m : Mutex) → place pq < place m → Above m held) where
  leaf-Balanced : (m : Mutex) → place pq < place m → Balanced held (locked m)
  leaf-Balanced m above = locked-Balanced m (leaf m above)

  destroy_query-Balanced : Balanced held destroy_query_locks
  unfolding destroy_query_locks
  destroy_query-Balanced = leaf-Balanced free_query_q (omega arith)

  reg_mr-Balanced : (hit : Bool) → Balanced held (reg_mr_locks hit)
  unfolding reg_mr_locks
  reg_mr-Balanced true = append-Balanced (leaf-Balanced reg_mr_q (omega arith)) none-Balanced
  reg_mr-Balanced false =
      let once = leaf-Balanced reg_mr_q (omega arith) in append-Balanced once once

  create_query-Balanced : (path : CreatePath) → Balanced held (create_query_locks path)
  unfolding create_query_locks
  create_query-Balanced reused = leaf-Balanced free_query_q (omega arith)
  create_query-Balanced passive = leaf-Balanced free_query_q (omega arith)
  create_query-Balanced (registered hit) =
      append-Balanced (leaf-Balanced free_query_q (omega arith)) (reg_mr-Balanced hit)

  matched-Balanced : (path : MatchPath) → Balanced held (matched_locks path)
  unfolding matched_locks cpy_eager_buff_locks
  matched-Balanced eager =
      append-Balanced (leaf-Balanced locked_request_sem_q (omega arith))
        (append-Balanced destroy_query-Balanced destroy_query-Balanced)
  matched-Balanced (rdma_read msg_hit) = reg_mr-Balanced msg_hit
  matched-Balanced other_opcode = none-Balanced
  matched-Balanced unmatched = none-Balanced

  init_passive_query-Balanced : (hit : Bool) → Balanced held (init_passive_query_locks hit)
  unfolding init_passive_query_locks
  init_passive_query-Balanced hit =
      append-Balanced (create_query-Balanced passive) (reg_mr-Balanced hit)

  arrived-Balanced : (hit : Bool) (path : MatchPath) → Balanced held (arrived_locks hit path)
  unfolding arrived_locks cpy_eager_buff2_locks
  arrived-Balanced hit eager =
      append-Balanced (leaf-Balanced locked_request_sem_q (omega arith)) destroy_query-Balanced
  arrived-Balanced hit (rdma_read msg_hit) =
      append-Balanced (init_passive_query-Balanced hit) (reg_mr-Balanced msg_hit)
  arrived-Balanced hit other_opcode = none-Balanced
  arrived-Balanced hit unmatched = init_passive_query-Balanced hit

  established-Balanced : (creates : List CreatePath) → Balanced held (established_locks creates)
  unfolding established_locks
  established-Balanced [] = none-Balanced
  established-Balanced (create ∷ creates) =
      append-Balanced (create_query-Balanced create) (established-Balanced creates)

alone : (m : Mutex) → place pq < place m → Above m []
alone m above = tt

inside : (m : Mutex) → place pq < place m → Above m (pq ∷ aq ∷ [])
inside m above = (above, (omega arith, tt))

handshake-Balanced : Balanced [] (acquire aq ∷ acquire pq ∷ release aq ∷ release pq ∷ [])
handshake-Balanced = record { keep = λ later o. (tt, ((omega arith, tt), (refl, (refl, o)))) }

locks_of-Balanced : (c : EngineCall) → Balanced [] (locks_of c)
unfolding locks_of on_recv_cq_wc_recv_locks on_send_cq_wc_recv_locks on_send_cq_wc_send_locks
    post_send_msg_param_locks post_recv_msg_param_locks flush_query_qp_locks
locks_of-Balanced (wc_recv_init path create) =
    append-Balanced handshake-Balanced
      (append-Balanced (matched-Balanced alone path) (create_query-Balanced alone create))
locks_of-Balanced (wc_recv_fin to_free create) =
    let freed = destroy_query-Balanced alone in
    append-Balanced (leaf-Balanced alone send_req_q (omega arith)) (
      append-Balanced (if-Balanced to_free freed)
        (append-Balanced freed (create_query-Balanced alone create)))
locks_of-Balanced wc_rdma_read =
    append-Balanced (leaf-Balanced alone locked_request_sem_q (omega arith))
      (destroy_query-Balanced alone)
locks_of-Balanced (wc_send_init is_eager) =
    append-Balanced
      (if-Balanced is_eager (
        append-Balanced (leaf-Balanced alone locked_request_sem_q (omega arith))
          (leaf-Balanced alone send_req_q (omega arith))))
      (destroy_query-Balanced alone)
locks_of-Balanced wc_send_fin = destroy_query-Balanced alone
locks_of-Balanced (event_established creates) = established-Balanced alone creates
locks_of-Balanced (event_disconnected needed) =
    if-Balanced needed (leaf-Balanced alone disconnected_prank_q (omega arith))
locks_of-Balanced (call_isend create hit) =
    append-Balanced (leaf-Balanced alone send_req_q (omega arith))
      (append-Balanced (create_query-Balanced alone create) (reg_mr-Balanced alone hit))
locks_of-Balanced (call_irecv hit path) =
    both-Balanced (release pq ∷ release aq ∷ []) (λ later o. (refl, (refl, o)))
      (arrived-Balanced inside hit path)
locks_of-Balanced call_iprobe = locked-Balanced aq tt
locks_of-Balanced (call_flush_query_qp from_aq from_pq) =
    let freed = destroy_query-Balanced inside in
    both-Balanced (release aq ∷ release pq ∷ []) (λ later o. (refl, (refl, o)))
      (append-Balanced (repeat-Balanced from_aq freed) (repeat-Balanced from_pq freed))
locks_of-Balanced (call_inform_loop create) = create_query-Balanced alone create
locks_of-Balanced (call_get_failure_status failed) =
    if-Balanced failed (leaf-Balanced alone failed_prank_q (omega arith))
locks_of-Balanced call_accept_failure_status = leaf-Balanced alone failed_prank_q (omega arith)

pub locks_of_all-Ordered : (calls : List EngineCall) → Ordered [] (locks_of_all calls)
unfolding locks_of_all
locks_of_all-Ordered [] = refl
locks_of_all-Ordered (c ∷ calls) =
    (locks_of-Balanced c).keep (locks_of_all calls) (locks_of_all-Ordered calls)
