-- ===== src/Engine/Transfer/Bytes.antt =====
-- src/fdmi.c, an eager message from end to end: fdmi_verbs_isend on one side, the network, and the two
-- orders of its arrival and its receive on the other.
use libibtl.Base.{
  Option, ℕ, ◌+◌, ◌-◌, ◌*◌, ◌%◌, ◌^◌, ◌≤◌, ◌<◌, ◌≡◌, ◌≢◌, refl, sym, ◌∙◌, true, false, none, some,
  List, [], ◌∷◌, ◌++◌, arith, ◌==◌, leb,
}
use libibtl.Base.Int.{ℤ, to_u64}
use libibtl.Store.{null}
use libibtl.Datatype.{Memory, reg_size}
use libibtl.Engine.{
  eager, comm_init, Mr, Connection, Msg, Query, Param, Engine, Work, send_posted, set_request,
}
use libibtl.Engine.Queries.{Platform, reg_mr, create_query}
use libibtl.Engine.Post.{
  ◌>>=◌, total_send_size, eager_entry, eager_buff_size, post_send, post_send_msg, Accepts,
}
use libibtl.Engine.Recv.{write_request}
use libibtl.Engine.Send.{post_send_msg_param}
use libibtl.Engine.Api.{lower_flag, isend}
use libibtl.Engine.Arrival.Sound.{Usable}
use libibtl.Engine.Arrival.Sound.Calls.{create_query-mr}
use libibtl.Engine.Transfer.{create_query-Frame, reg_mr-Frame}

-- a message that is contiguous and fits into the eager buffer
pub record IsSmall (param : Param) (n : ℕ) : Type 0 where
  pub contiguous : param.dtype.count ≡ 1
  pub bytes : n ≡ param.dtype.blength * param.dtype.size * param.count
  pub fits : n ≤ eager_buff_size

-- the engine once fdmi_verbs_isend has entered its request and lowered the flag
unfoldable pub lowered : Param → Engine → Engine
lowered param e = record e {
  send_req_q = e.send_req_q ++ param.request ∷ [];
  requests =
      set_request param.request (record (e.requests param.request) { request_flag = false })
        e.requests;
}

-- the message as it is handed to the network card, with the region of its buffer
unfoldable pub sent_msg : Platform → (prank : ℤ) → Connection → Param → Mr → Engine → Msg
sent_msg platform prank c param mr e =
    let (q, _) = create_query platform (some c) (lowered param e) in
    record (q.msg) {
      type = comm_init;
      opcode = eager;
      epoch = e.ft_epoch;
      addr = param.addr;
      rank = to_u64 prank;
      order = 0;
      tag = to_u64 param.tag;
      count = param.count;
      comm_id = param.comm_id;
      dtype = param.dtype;
      op = param.op;
      rdma_mr = mr;
      eager_size = param.dtype.blength * param.dtype.size * param.count;
    }

-- the region that fdmi_reg_mr gives for the buffer
unfoldable pub buffer_mr : Platform → Connection → Param → Engine → Option Mr
buffer_mr platform c param e =
    let e' = (create_query platform (some c) (lowered param e)).1 in
    (reg_mr platform param.addr (reg_size param.dtype param.count) c.pd e').0

-- the newest work is a send of a message, with its data at an address
abbrev pub IsSent : Connection → Msg → (addr n : ℕ) → Engine → Type 0
IsSent c m addr n e =
    (q : Query) × (control : ℕ × ℕ) × (works : List Work) × (e.posted
      ≡ send_posted c q (control ∷ (addr, n) ∷ []) ∷ works)
    × (q.msg ≡ m)

-- A small message: fdmi_verbs_isend does not end the process, and hands the message and its bytes to
-- the network card.
pub isend-IsSent :
    (platform : Platform) (prank : ℤ) (c : Connection) (param : Param) (n : ℕ) (e : Engine)
    (mr : Mr)
    → IsSmall param n
    → (param.request == null) ≡ false
    → Usable e
    → Accepts platform
    → buffer_mr platform c param e ≡ some mr
    → (e' : Engine) × (isend platform prank (some c) param e ≡ some e')
      × (e'.memory ≡ e.memory)
      × IsSent c (sent_msg platform prank c param mr e) param.addr n e'
unfolding isend lower_flag write_request post_send_msg_param post_send_msg total_send_size
    eager_entry sent_msg lowered create_query buffer_mr post_send
isend-IsSent platform prank c param n e mr small requested u accepts registered =
    let e₁ = lowered param e in
    let (_, has) = create_query-mr platform c e₁ u.free accepts in
    let (q, e₂) = create_query platform (some c) e₁ in
    let e₃ = (reg_mr platform param.addr (reg_size param.dtype param.count) c.pd e₂).1 in
    let total : (param.dtype.blength * param.dtype.count * param.count * param.dtype.size) % 2 ^ 32
        ≡ n =
      rw small.contiguous (omega (arith, small.bytes, small.fits)) in
    let same_size : param.dtype.blength * param.dtype.size * param.count ≡ n = sym small.bytes in
    let fits : leb n eager_buff_size ≡ true = ground (arith, small.fits) in
    let one : (param.dtype.count == 1) ≡ true = ground (arith, small.contiguous) in
    let sent : Query = record q {
      conn = some c;
      active_query_to_free = none;
      request = param.request;
      msg = sent_msg platform prank c param mr e;
    } in
    let control : ℕ × ℕ = (q.msg_address, platform.sizeof_msg - eager_buff_size) in
    let f₂ = create_query-Frame platform (some c) e₁ in
    let f₃ = reg_mr-Frame platform param.addr (reg_size param.dtype param.count) c.pd e₂ in
    (
      record e₃ { posted = send_posted c sent (control ∷ (param.addr, n) ∷ []) ∷ e₃.posted },
      rw (requested, ◌>>=◌, registered, has, total, fits, one, same_size, accepts.sends) refl,
      f₃.memory ∙ f₂.memory,
      (sent, control, e₃.posted, refl, refl),
    )

-- What the network makes of a message: the query that is completed on the other side has the fields of
-- the message, and the bytes of the sender's memory in its eager buffer. The poller has written the
-- sender's rank over the one in the message.
pub record Delivered (memory : Memory) (m : Msg) (addr n : ℕ) (active : Query) : Type 0 where
  pub opcode : active.msg.opcode ≡ m.opcode
  pub epoch : active.msg.epoch ≡ m.epoch
  pub tag : active.msg.tag ≡ m.tag
  pub count : active.msg.count ≡ m.count
  pub comm_id : active.msg.comm_id ≡ m.comm_id
  pub bytes : (i : ℕ) → i < n → active.msg.eager_buff i ≡ memory (addr + i)

-- The receive got the message: its request is complete, with the tag of the message, the `n` bytes at
-- its address are those of the sender, and all other bytes are as they were.
pub record Received (from : Memory) (source : ℕ) (send receive : Param) (n : ℕ) (e e' : Engine)
    : Type 0 where
  pub flag : (e'.requests receive.request).request_flag ≡ true
  pub tag : (e'.requests receive.request).tag ≡ send.tag
  pub bytes : (i : ℕ) → i < n → e'.memory (receive.addr + i) ≡ from (source + i)
  pub elsewhere : (a : ℕ) → ((i : ℕ) → i < n → a ≢ receive.addr + i) → e'.memory a ≡ e.memory a
