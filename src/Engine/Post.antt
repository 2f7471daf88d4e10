-- ===== src/Engine/Post.antt =====
-- How src/fdmi.c hands work to the network card. A call of the verbs library that fails ends the
-- process; a step that yields `none` is one that ends the process, by `exit` or by a NULL pointer.
use libibtl.Base.{
  ℕ, ◌+◌, ◌-◌, ◌*◌, ◌%◌, ◌^◌, ◌≡◌, refl, true, Option, none, some, List, [], ◌∷◌, ◌==◌, leb,
  if◌then◌else◌, Option-cases, inl, inr,
}
use libibtl.Store.{Ptr}
use libibtl.Datatype.{Memory, Cursor, gather}
use libibtl.Engine.{Work, Mr, Msg, Query, Engine, eager, recv_posted, send_posted, read_posted}
use libibtl.Engine.Queries.{Platform, find_mr, reg_mr}

abbrev pub eager_buff_size : ℕ
eager_buff_size = 64 * 1024

infixl 5 ◌>>=◌
abbrev pub ◌>>=◌ {ℓ κ} : {A : Type ℓ} {B : Type κ} → Option A → (A → Option B) → Option B
none >>= f = none
some a >>= f = f a

-- ibv_post_send and ibv_post_recv: where one fails, its caller ends the process
unfoldable pub post_send : Platform → Work → Engine → Option Engine
post_send platform work e =
    if platform.post_send e.posted work then some (record e { posted = work ∷ e.posted }) else none

unfoldable pub post_recv : Platform → Work → Engine → Option Engine
post_recv platform work e =
    if platform.post_recv e.posted work then some (record e { posted = work ∷ e.posted }) else none

-- fdmi_post_recv_msg: it needs the query's connection and registration
unfoldable pub post_recv_msg : Platform → Query → Engine → Option Engine
unfolding post_recv
post_recv_msg platform q e = do c ← q.conn; mr ← q.msg_mr; post_recv platform (recv_posted c q) e

-- `total_send_size`, a `uint32_t`
unfoldable pub total_send_size : Msg → ℕ
total_send_size m = (m.dtype.blength * m.dtype.count * m.count * m.dtype.size) % 2 ^ 32

-- The second scatter/gather entry of fdmi_post_send_msg, by address and length, and the message, whose
-- eager buffer holds the data where it is not contiguous. `eager_base` is the buffer's address.
unfoldable pub eager_entry : (memory : Memory) (eager_base : ℕ) → Msg → (ℕ × ℕ) × Msg
eager_entry memory eager_base m =
    let total = total_send_size m in
    let m' = record m { opcode = eager; eager_size = total } in
    if m.dtype.count == 1
    then ((m.addr, total), m')
    else (let c : Cursor = gather memory m.addr m.dtype m.count m.eager_buff 0 in
        ((eager_base + c.target, total), record m' { eager_buff = c.memory }))

-- fdmi_post_send_msg. The first entry is the control message in front of the eager buffer.
unfoldable pub post_send_msg : Platform → Query → Engine → Option Engine
unfolding total_send_size eager_entry post_send
post_send_msg platform q e = do
  c ← q.conn
  mr ← q.msg_mr
  let control : ℕ × ℕ = (q.msg_address, platform.sizeof_msg - eager_buff_size)
  if leb (total_send_size q.msg) eager_buff_size
      then (let eager_base = q.msg_address + (platform.sizeof_msg - eager_buff_size) in
          let (entry, m) = eager_entry e.memory eager_base q.msg in
          post_send platform (send_posted c (record q { msg = m }) (control ∷ entry ∷ [])) e)
      else post_send platform (send_posted c q (control ∷ [])) e

-- `sge.length` of fdmi_post_rdma_read, a `uint32_t`
unfoldable pub read_size : Msg → ℕ
read_size m =
    ((m.dtype.stride * (m.dtype.count - 1) + m.dtype.blength) * m.dtype.size * m.count) % 2 ^ 32

-- fdmi_post_rdma_read: the receive takes the connection of the message and reads the sender's memory
unfoldable pub post_rdma_read : Platform → (passive active : Query) → Engine → Option Engine
unfolding read_size post_send
post_rdma_read platform passive active e = do
  c ← active.conn
  let (registered, e') = reg_mr platform passive.msg_address platform.sizeof_msg c.pd e
  mr ← registered
  let p = record passive { conn = some c; msg_mr = some mr }
  post_send platform (read_posted c p active.msg.rdma_mr.addr p.msg.addr (read_size p.msg)) e'

-- The network card takes all that is posted, and each registration succeeds.
pub record Accepts (platform : Platform) : Type 0 where
  pub sends : (posted : List Work) (work : Work) → platform.post_send posted work ≡ true
  pub receives : (posted : List Work) (work : Work) → platform.post_recv posted work ≡ true
  pub registers : (pd : Ptr) (addr size : ℕ) → (mr : Mr) × (platform.reg_mr pd addr size ≡ some mr)

pub reg_mr-some :
    (platform : Platform) (addr size : ℕ) (pd : Ptr) (e : Engine)
    → Accepts platform
    → (mr : Mr) × ((reg_mr platform addr size pd e).0 ≡ some mr)
unfolding reg_mr
reg_mr-some platform addr size pd e accepts =
    elim (Option-cases (find_mr addr (size % 2 ^ 32) pd e.reg_mr_q)) [
      | inl new ↦
          let (mr, got) = accepts.registers pd addr (size % 2 ^ 32) in
          (mr, rw (reg_mr, new, got) refl)
      | inr (mr, cached) ↦ (mr, rw (reg_mr, cached) refl)
    ]
