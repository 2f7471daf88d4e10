-- ===== src/Ibio.antt =====
-- The checkpoint input and output of examples/ibio_common.h, ibio_common.c, ibio_client.c and
-- ibio_server.c: what a client and the server send to one another.
pub mod Tag
pub mod Chunks
pub mod Client
pub mod Name
pub mod Server
pub mod Serve
pub mod Dump
pub mod Session
pub mod Reading
use libibtl.Base.{ℕ, ◌*◌, ◌^◌, List}
use libibtl.Base.Int.{ℤ, pos}
use libibtl.Datatype.{Memory}

-- the operations, IBVIO_OP_...
abbrev pub op_noop : ℕ
op_noop = 0

abbrev pub op_open : ℕ
op_open = 1

abbrev pub op_write : ℕ
op_write = 2

abbrev pub op_write_begin : ℕ
op_write_begin = 3

abbrev pub op_write_chunk : ℕ
op_write_chunk = 4

abbrev pub op_read : ℕ
op_read = 5

abbrev pub op_close : ℕ
op_close = 6

-- IBVIO_CHUNK_SIZE
abbrev pub ibvio_chunk_size : ℕ
ibvio_chunk_size = 64 * 1024 * 1024

-- BUF_SIZE of the server: the bytes of a file's cache
abbrev pub buf_size : ℕ
buf_size = 1024 * 1024 * 1024

-- struct ibvio_open; the path as its bytes
pub record IbvioOpen : Type 0 where
  pub fd : ℤ
  pub stat : ℤ
  pub count : ℤ
  pub path : List ℕ
  pub flags : ℤ
  pub mode : ℤ

-- What a message carries: the structure, or `size` bytes of memory from an address on.
pub data Payload : Type 0 where
  request : IbvioOpen → Payload
  bytes : (memory : Memory) (at size : ℕ) → Payload

-- The communication calls of a client, in their order: fdmi_verbs_connect, fdmi_verbs_isend, and
-- fdmi_verbs_irecv of the structure or of bytes. The last two are waited for by fdmi_verbs_wait
-- before the next.
pub data Call : Type 0 where
  connect : (peer : ℤ) (hostname : List ℕ) → Call
  send : (peer tag : ℤ) → Payload → Call
  recv_open : (peer tag : ℤ) → Call
  recv_bytes : (peer tag : ℤ) (at size : ℕ) → Call
