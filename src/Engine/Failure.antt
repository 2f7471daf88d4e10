-- ===== src/Engine/Failure.antt =====
-- src/fdmi.c, the calls of an application on a failure: fdmi_verbs_join, fdmi_get_state, fdmi_set_state,
-- fdmi_verbs_get_failure_status and fdmi_verbs_accept_failure_status; and what the test of
-- fdmi_on_recv_cq_wc_recv on a failure comes to.
use Prim.Native.Nat.{bit_or}
use libibtl.Base.{
  ℕ, ◌+◌, ◌≤◌, ◌≡◌, refl, false, Option, none, some, List, [], ◌∷◌, arith, leb, ◌==◌, length,
  if◌then◌else◌, get_elem?,
}
use libibtl.Base.Bits.{le-bit_or}
use libibtl.Base.Int.{ℤ, pos, minus_one, eq_ℤ}
use libibtl.Engine.{
  FdmiState, compute, failure, recovery, joining, loop, Connection, Query, Engine,
  get_matched_query,
}
use libibtl.Engine.Queries.{Platform, create_query}
use libibtl.Store.{null}
use libibtl.Engine.Post.{◌>>=◌, post_send_msg}
use libibtl.Engine.Recv.{fdmi_force, is_discarded, arrive, repost, on_recv_cq_wc_recv}

-- fdmi_get_state
unfoldable pub get_state : Engine → FdmiState
get_state e = e.fdmi_state

-- fdmi_set_state
unfoldable pub set_state : FdmiState → Engine → Engine
set_state state e = record e { fdmi_state = state }

-- fdmi_verbs_join
unfoldable pub join : Engine → ℤ × Engine
unfolding set_state
join e = elim e.fdmi_state [
  | compute ↦ (minus_one, e)
  | failure ↦ (minus_one, e)
  | recovery ↦ (pos 0, set_state compute e)
  | joining ↦ (pos 1, set_state compute e)
]

-- struct fdmi_failure_status, with as many ranks as were written
pub record FailureStatus : Type 0 where
  pub length : ℕ
  pub pranks : List ℤ

-- the entries of `pranks`
abbrev pub max_pranks : ℕ
max_pranks = 256

-- fdmi_verbs_get_failure_status: the status, and failed_prank_q afterwards. In a failure it waits for
-- another state, and `failed_prank_q` is the queue after this. More ranks than `pranks` has entries are
-- undefined.
unfoldable pub get_failure_status :
    FdmiState → (failed_prank_q : List ℤ) → Option (FailureStatus × List ℤ)
get_failure_status failure failed_prank_q =
    if leb (length failed_prank_q) max_pranks
    then some (record { length = length failed_prank_q; pranks = failed_prank_q }, [])
    else none
get_failure_status _ failed_prank_q = some (record { length = 0; pranks = [] }, failed_prank_q)

-- the loop of fdmi_verbs_accept_failure_status: the `count`-th rank of the queue is removed where it is
-- the `count`-th of the status
unfoldable pub accept_loop : (count : ℕ) (pranks failed_prank_q : List ℤ) → Option (List ℤ)
accept_loop count pranks [] = some []
accept_loop count pranks (failed_prank ∷ failed_prank_q) = do
  rest ← accept_loop (count + 1) pranks failed_prank_q
  prank ← get_elem? pranks count
  some (if eq_ℤ prank failed_prank then rest else failed_prank ∷ rest)

-- fdmi_verbs_accept_failure_status, on the whole array `pranks`
unfoldable pub accept_failure_status : (pranks failed_prank_q : List ℤ) → Option (List ℤ)
unfolding accept_loop
accept_failure_status pranks failed_prank_q = accept_loop 0 pranks failed_prank_q

-- fdmi_inform_loop on the connection of a peer. The field `loop` of the message is left out, and the
-- others, the size and the datatype among them, are what the query held.
unfoldable pub inform_loop : Platform → (conn : Option Connection) → Engine → Option Engine
inform_loop platform conn e =
    let (q, e') = create_query platform conn e in
    post_send_msg platform (record q { request = null; msg = record (q.msg) { opcode = loop } }) e'

or_force : (op : ℕ) → (bit_or op fdmi_force == 0) ≡ false
or_force op =
    let h : 2 ≤ bit_or op fdmi_force = le-bit_or op op 2 (omega arith) in ground (arith, h)

pub is_discarded_never : (state : FdmiState) (op : ℕ) → is_discarded state op ≡ false
unfolding is_discarded
is_discarded_never compute op = refl
is_discarded_never failure op = or_force op
is_discarded_never recovery op = refl
is_discarded_never joining op = refl

-- no state of the library, a failure included, makes the test at the head of the handler hold
pub on_recv_cq_wc_recv-arrive :
    (platform : Platform) (active : Query) (e : Engine)
    → on_recv_cq_wc_recv platform active e ≡ (
        arrive platform active e (get_matched_query e.ft_epoch active e.pq)
        >>= repost platform active.conn)
unfolding on_recv_cq_wc_recv
on_recv_cq_wc_recv-arrive platform active e =
    rw (is_discarded_never e.fdmi_state active.msg.op) refl
