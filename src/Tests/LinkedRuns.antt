-- ===== src/Tests/LinkedRuns.antt =====
-- Two receives that wait, on linked queues, and then a message for the second one (src/fdmi.c).
use libibtl.Base.{◌≡◌, refl, false, none, some, [], ◌∷◌, ◌++◌, arith, ◌==◌, if◌then◌else◌}
use libibtl.Store.{null, node, Heap}
use libibtl.Store.Cells.{Linked}
use libibtl.Store.Returns.{Returns}
use libibtl.Queue.Search.{PointTo}
use libibtl.Datatype.{scatter, reg_size}
use libibtl.Base.Int.{to_u64}
use libibtl.Engine.{
  Mr, Msg, Query, Engine, is_matched_query, get_matched_query, get_matched_query2, remove_query,
  set_request, remove_flag,
}
use libibtl.Engine.Queries.{Platform, create_query, destroy_query, reg_mr}
use libibtl.Engine.Recv.{
  complete, write_request, cpy_eager_buff, deliver, arrive, init_passive_query, passive_query,
  post_recv_msg_param, receive, wait_for,
}
use libibtl.Engine.Linked.{
  QueryQp, Messages, arrive_linked, receive_linked, entries, Both, IsQp, address_or_null,
}
use libibtl.Engine.Linked.Arrive.{arrive_linked-arrive}
use libibtl.Engine.Linked.Flush.{addresses, flush_linked, flush_linked-flush_query_qp}
use libibtl.Engine.Send.{flush_query_qp}
use libibtl.Engine.Linked.Waiting.{waiting}
use libibtl.Engine.Linked.Receive.{Allocated, receive_linked-receive}
use libibtl.Tests.EngineRuns.{
  platform, empty_engine, message, param, any_receive, kept_receive, any_msg, eager_msg,
}

-- a receive with tag 8
abbrev other_receive : Query
other_receive = record any_receive { address = 42; msg = record any_msg { tag = 8 } }

abbrev two_receives : Engine
two_receives = record empty_engine { pq = other_receive ∷ any_receive ∷ [] }

abbrev messages : Messages
messages p =
    if p == 40
    then some eager_msg
    else if p == 41
    then some any_msg
    else if p == 42
    then some (record any_msg { tag = 8 })
    else none

abbrev two_nodes : Heap
two_nodes a = if a == 1 then some (node 2 42) else if a == 2 then some (node null 41) else none

abbrev queues : QueryQp
queues = record {
  aq = record { head = null; tail = null; ite = null; mut = false; length = 0 };
  pq = record { head = 1; tail = 2; ite = null; mut = false; length = 2 };
}

two_nodes-Linked : Linked two_nodes ((1, 42) ∷ (2, 41) ∷ [])
two_nodes-Linked = ((λ e. omega (arith, e)), refl, refl, ((λ e. omega (arith, e)), refl, refl, tt))

receives-PointTo : PointTo messages ((1, 42) ∷ (2, 41) ∷ []) (entries two_receives.pq)
unfolding PointTo entries
receives-PointTo = (refl, (λ e. omega (arith, e)), refl, (refl, (λ e. omega (arith, e)), refl, tt))

queues-Both :
    Both messages two_nodes queues.aq queues.pq []
      ((1, 42) ∷ (2, 41) ∷ [])
      two_receives.aq
      two_receives.pq
unfolding PointTo entries
queues-Both = record {
  aq_holds = record { head = refl; tail = refl; length = refl; linked = tt };
  aq_points = tt;
  pq_holds = record { head = refl; tail = refl; length = refl; linked = two_nodes-Linked };
  pq_points = receives-PointTo;
  apart = λ a i. cc;
}

queues-IsQp : IsQp messages two_nodes queues two_receives
unfolding IsQp
queues-IsQp = ([], (1, 42) ∷ (2, 41) ∷ [], queues-Both, refl, refl)

-- the second receive has got the message
abbrev delivered : Engine
delivered = record two_receives {
  pq = other_receive ∷ [];
  requests = set_request 77 (complete eager_msg) two_receives.requests;
  memory = scatter eager_msg.eager_buff 0 any_msg.dtype 4 two_receives.memory 500;
  free_query_q = any_receive ∷ message ∷ [];
}

delivered-arrive :
    arrive platform message two_receives (get_matched_query 0 message two_receives.pq)
    ≡ some delivered
unfolding arrive deliver cpy_eager_buff write_request destroy_query remove_query remove_flag
    get_matched_query is_matched_query
delivered-arrive = refl

arrive_linked-arrive_example :
    Returns
      (λ (matched, qp') g.
        (matched ≡ address_or_null (get_matched_query 0 message two_receives.pq))
        × IsQp messages g qp' delivered)
      (arrive_linked 3 0 messages message queues two_nodes)
arrive_linked-arrive_example =
    arrive_linked-arrive platform 3 message messages two_nodes queues two_receives queues-IsQp
      (λ e. omega (arith, e)) refl (λ e. omega (arith, e)) refl delivered-arrive

-- the query of a third receive is at 43
abbrev third : Query
third = record message { address = 43; conn = none }

abbrev third_platform : Platform
third_platform = record platform { fresh_query = λ e. third }

-- the registration of the buffer
abbrev buffer : Mr
buffer = record { pd = 9; addr = 500; length = 4; key = 2 }

-- the message of the query that waits
abbrev waiting_msg : Msg
waiting_msg = record (message.msg) {
  epoch = 0;
  addr = param.addr;
  rank = to_u64 param.rank;
  order = 0;
  tag = to_u64 param.tag;
  count = param.count;
  dtype = param.dtype;
  comm_id = param.comm_id;
  op = param.op;
  rdma_mr = buffer;
}

abbrev messages_after : Messages
messages_after p = if p == 43 then some waiting_msg else messages p

queues-IsQp_after : IsQp messages_after two_nodes queues two_receives
unfolding IsQp PointTo entries
queues-IsQp_after = (
  [],
  (1, 42) ∷ (2, 41) ∷ [],
  record {
    aq_holds = record { head = refl; tail = refl; length = refl; linked = tt };
    aq_points = tt;
    pq_holds = record { head = refl; tail = refl; length = refl; linked = two_nodes-Linked };
    pq_points = (refl, (λ e. omega (arith, e)), refl, (refl, (λ e. omega (arith, e)), refl, tt));
    apart = λ a i. cc;
  },
  refl,
  refl,
)

waiting-Allocated : Allocated messages_after 43 (waiting third_platform param two_receives)
unfolding waiting init_passive_query passive_query create_query reg_mr reg_size to_u64
    libibtl.Engine.Queries.find_mr
waiting-Allocated = (refl, (λ e. omega (arith, e)), refl)

abbrev waits_too : Engine
waits_too = record two_receives {
  pq =
      other_receive
      ∷ any_receive
      ∷ record third { request = param.request; msg = waiting_msg }
      ∷ [];
  reg_mr_q = buffer ∷ [];
}

third-receive : post_recv_msg_param third_platform param two_receives ≡ some waits_too
unfolding post_recv_msg_param receive get_matched_query2 wait_for init_passive_query passive_query
    create_query reg_mr reg_size to_u64 libibtl.Engine.Queries.find_mr
third-receive = refl

receive_linked-receive_example :
    Returns
      (λ (matched, qp') g.
        (matched ≡ address_or_null (get_matched_query2 0 param.rank param.tag param.comm_id []))
        × IsQp messages_after g qp' waits_too)
      (receive_linked 3 0 messages_after param 43 queues two_nodes)
receive_linked-receive_example =
    receive_linked-receive third_platform 3 43 param messages_after two_nodes queues two_receives
      queues-IsQp_after (λ e. omega (arith, e)) refl waiting-Allocated third-receive

-- a receive that a flush keeps, in front of one that it drops
abbrev kept_and_dropped : Engine
kept_and_dropped = record empty_engine { pq = kept_receive ∷ any_receive ∷ [] }

abbrev messages_kept : Messages
messages_kept p =
    if p == 41 then some any_msg else if p == 42 then some (record any_msg { op = 4 }) else none

queues-IsQp_kept : IsQp messages_kept two_nodes queues kept_and_dropped
unfolding IsQp PointTo entries
queues-IsQp_kept = (
  [],
  (1, 42) ∷ (2, 41) ∷ [],
  record {
    aq_holds = record { head = refl; tail = refl; length = refl; linked = tt };
    aq_points = tt;
    pq_holds = record { head = refl; tail = refl; length = refl; linked = two_nodes-Linked };
    pq_points = (refl, (λ e. omega (arith, e)), refl, (refl, (λ e. omega (arith, e)), refl, tt));
    apart = λ a i. cc;
  },
  refl,
  refl,
)

flush_linked-flush_query_qp_example :
    Returns
      (λ (destroyed, qp') g.
        IsQp messages_kept g qp' (flush_query_qp kept_and_dropped)
        × (addresses (flush_query_qp kept_and_dropped).free_query_q ≡ addresses [] ++ destroyed))
      (flush_linked messages_kept queues two_nodes)
flush_linked-flush_query_qp_example =
    flush_linked-flush_query_qp messages_kept two_nodes queues kept_and_dropped queues-IsQp_kept tt
      ((refl, tt), (tt, tt))
