-- ===== src/Tests/EngineRuns.antt =====
-- A message that has arrived, and a receive that it matches (src/fdmi.c).
use libibtl.Base.{◌≡◌, refl, inl, inr, true, false, none, some, [], ◌∷◌, ◌++◌, arith}
use libibtl.Base.Int.{pos, minus_one, IsInt}
use libibtl.Store.{null}
use libibtl.Datatype.{Memory, fmi_byte}
use libibtl.ProcMan.{Communicator, get_prank}
use libibtl.Engine.{
  MsgType, eager, compute, Mr, Connection, Msg, Query, Param, Request, Engine, is_matched_query,
  is_matched_query2, get_matched_query2,
}
use libibtl.Engine.Post.{Accepts}
use libibtl.Engine.Queries.{Platform}
use libibtl.Engine.Recv.{on_recv_cq_wc_recv, post_recv_msg_param}
use libibtl.Engine.Send.{flush_query_qp}
use libibtl.Engine.Matching.{is_matched_query_symm}
use libibtl.Engine.Arrival.Settled.{Settled}
use libibtl.Engine.Arrival.Returns.{Leaves, on_recv_cq_wc_recv-Settled, post_recv_msg_param-Settled}
use libibtl.Engine.Flush.{preserved, dropped, flush_query_qp-preserved}
use libibtl.Engine.Api.{iprobe, envelope, iprobe-get_matched_query2}

abbrev pub some_mr : Mr
some_mr = record { pd = 9; addr = 0; length = 4096; key = 1 }

abbrev pub connection : Connection
connection = record { address = 5; rcid = 6; pd = 9 }

abbrev payload : Memory
payload a = 65

-- from rank 3, with tag 7
abbrev pub eager_msg : Msg
eager_msg = record {
  type = MsgType.comm_init;
  opcode = eager;
  epoch = 0;
  addr = 100;
  rank = 3;
  order = 0;
  tag = 7;
  op = 0;
  count = 4;
  comm_id = 1;
  dtype = fmi_byte;
  rdma_mr = some_mr;
  eager_size = 4;
  eager_buff = payload;
}

-- from any source, with tag 7
abbrev pub any_msg : Msg
any_msg = record eager_msg { rank = 18446744073709551615; addr = 500 }

abbrev pub message : Query
message = record {
  address = 40;
  conn = some connection;
  msg = eager_msg;
  msg_address = 1000;
  msg_mr = some some_mr;
  active_query_to_free = none;
  request = null;
}

abbrev pub any_receive : Query
any_receive = record message { address = 41; conn = none; msg = any_msg; request = 77 }

-- kept by a flush
abbrev pub kept_receive : Query
kept_receive = record any_receive { address = 42; msg = record any_msg { op = 4 } }

abbrev pub platform : Platform
platform = record {
  fresh_query = λ e. message;
  reg_mr = λ pd addr size. some (record { pd = pd; addr = addr; length = size; key = 2 });
  post_send = λ posted work. true;
  post_recv = λ posted work. true;
  create_qp = λ has_context id. true;
  sizeof_msg = 65664;
  domain_pd = 9;
}

pub platform-Accepts : Accepts platform
platform-Accepts = record {
  sends = λ posted work. refl;
  receives = λ posted work. refl;
  registers = λ pd addr size. (_, refl);
}

abbrev idle : Request
idle = record { prank = minus_one; tag = minus_one; request_flag = false }

abbrev pub empty_engine : Engine
empty_engine = record {
  ft_epoch = 0;
  fdmi_state = compute;
  aq = [];
  pq = [];
  free_query_q = [];
  send_req_q = [];
  locked_request_sem_q = [];
  reg_mr_q = [];
  requests = λ p. idle;
  memory = λ a. 0;
  posted = [];
}

-- a receive waits
abbrev pub receive_first : Engine
receive_first = record empty_engine { pq = any_receive ∷ [] }

-- a message waits
abbrev message_first : Engine
message_first = record empty_engine { aq = message ∷ [] }

abbrev pub param : Param
param = record {
  rank = pos 3;
  tag = pos 7;
  addr = 500;
  count = 4;
  dtype = fmi_byte;
  comm_id = 1;
  request = 77;
  op = 0;
}

receive_first-Settled : Settled receive_first
receive_first-Settled = record { current = tt; apart = tt }

message_first-Settled : Settled message_first
message_first-Settled = record { current = (omega arith, tt); apart = (tt, tt) }

three-IsInt : IsInt (pos 3)
three-IsInt = omega arith

seven-IsInt : IsInt (pos 7)
seven-IsInt = omega arith

on_recv_cq_wc_recv-Settled_example :
    Leaves Settled (on_recv_cq_wc_recv platform message receive_first)
on_recv_cq_wc_recv-Settled_example =
    on_recv_cq_wc_recv-Settled platform message receive_first connection refl (inr (some_mr, refl))
      ((refl, inl refl), tt) tt receive_first-Settled platform-Accepts

post_recv_msg_param-Settled_example :
    Leaves Settled (post_recv_msg_param platform param message_first)
post_recv_msg_param-Settled_example =
    post_recv_msg_param-Settled platform param message_first three-IsInt seven-IsInt refl
      ((connection, refl), tt) message_first-Settled platform-Accepts

is_matched_query_symm_example :
    is_matched_query 0 eager_msg (record any_msg { rank = 3 })
    ≡ is_matched_query2 0 (pos 3) (pos 7) 1 eager_msg
is_matched_query_symm_example =
    is_matched_query_symm 0 (pos 3) (pos 7) eager_msg (record any_msg { rank = 3 }) three-IsInt
      seven-IsInt (omega arith) (omega arith) refl refl

-- a receive that is flushed, and one that is not
abbrev two_receives : Engine
two_receives = record empty_engine { pq = any_receive ∷ kept_receive ∷ []; aq = message ∷ [] }

flush_query_qp-preserved_example :
    ((flush_query_qp two_receives).aq ≡ preserved (message ∷ []))
    × ((flush_query_qp two_receives).pq ≡ preserved (any_receive ∷ kept_receive ∷ []))
    × ((flush_query_qp two_receives).free_query_q
        ≡ ([] ++ dropped (message ∷ [])) ++ dropped (any_receive ∷ kept_receive ∷ []))
flush_query_qp-preserved_example =
    flush_query_qp-preserved two_receives (tt, tt) ((refl, tt), (tt, tt))

iprobe-get_matched_query2_example :
    iprobe 0 minus_one (pos 7) 1 (message ∷ [])
    ≡ envelope (get_matched_query2 0 minus_one (pos 7) 1 (message ∷ []))
iprobe-get_matched_query2_example =
    iprobe-get_matched_query2 0 minus_one (pos 7) 1 (message ∷ []) ((refl, refl), tt)

-- a communicator of four ranks, without a parent
abbrev pub four_ranks : Communicator
four_ranks = (
  record {
    id = 1;
    vrank = pos 0;
    psize = 4;
    comm_size = 4;
    rmap_ptov_size = 4;
    rmap_ptov = pos 0 ∷ pos 1 ∷ pos 2 ∷ pos 3 ∷ [];
    rmap_vtop_size = 4;
    rmap_vtop = pos 0 ∷ pos 1 ∷ pos 2 ∷ pos 3 ∷ [];
  },
  [],
)

pub four_ranks-get_prank : get_prank four_ranks (pos 3) ≡ some (pos 3)
unfolding get_prank
four_ranks-get_prank = refl
