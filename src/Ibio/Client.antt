-- ===== src/Ibio/Client.antt =====
-- examples/ibio_client.c: the calls of an application, as the communication calls that they make. The
-- local structure `iopen` starts with what the stack held, `stack`, and `reply` is the structure that
-- the server sends back.
pub mod Hosts
use libibtl.Base.{ℕ, ◌+◌, ◌≡◌, Option, none, some, List, [], ◌∷◌, ◌++◌, ltb, if◌then◌else◌, length}
use libibtl.Base.Int.{ℤ, pos, to_int}
use libibtl.Datatype.{Memory}
use libibtl.Engine.{any_tag}
use libibtl.ProcMan.{read_at, write_at}
use libibtl.Ibio.{
  op_open, op_write, op_write_begin, op_write_chunk, op_read, op_close, ibvio_chunk_size, IbvioOpen,
  Payload, request, bytes, Call, connect, send, recv_open, recv_bytes,
}
use libibtl.Ibio.Tag.{serialize_tag}
use libibtl.Ibio.Chunks.{◌>>=◌, Chunk, chunks_of}
use libibtl.Ibio.Name.{strtok}

-- the globals `host_ids`, of 1024 entries, and `next_host_id`
pub record Client : Type 0 where
  pub host_ids : List ℤ
  pub next_host_id : ℕ

-- the sends of the loop
unfoldable pub send_chunks : (host tag : ℤ) → Memory → (buf : ℕ) → List Chunk → List Call
send_chunks host tag memory buf [] = []
send_chunks host tag memory buf ((at, size) ∷ chunks) =
    send host tag (bytes memory (buf + at) size) ∷ send_chunks host tag memory buf chunks

-- the receives of the loop
unfoldable pub recv_chunks : (host tag : ℤ) (buf : ℕ) → List Chunk → List Call
recv_chunks host tag buf [] = []
recv_chunks host tag buf ((at, size) ∷ chunks) =
    recv_bytes host tag (buf + at) size ∷ recv_chunks host tag buf chunks

-- ibtl_open: the calls, the result and the globals afterwards. A name with 256 bytes or more, or
-- without both its parts, is undefined; so is a descriptor outside `host_ids`.
unfoldable pub ibtl_open :
    Client
    → (pathname : List ℕ) (flags mode : ℤ) (stack reply : IbvioOpen)
    → Option (List Call × ℤ × Client)
unfolding strtok write_at
ibtl_open c pathname flags mode stack reply =
    if ltb (length pathname) 256
    then (do
      (hostname, rest) ← strtok pathname
      (path, rest') ← strtok rest
      let host = pos c.next_host_id
      let tag = serialize_tag (pos op_open) (pos 0)
      let iopen : IbvioOpen = record stack { path = path; flags = flags; mode = mode }
      host_ids ← write_at c.host_ids reply.fd host
      some (
        connect host hostname ∷ send host tag (request iopen) ∷ recv_open host any_tag ∷ [],
        reply.fd,
        record { host_ids = host_ids; next_host_id = c.next_host_id + 1 },
      ))
    else none

-- ibtl_dwrite
unfoldable pub ibtl_dwrite :
    Client → (fd : ℤ) → Memory → (buf count : ℕ) (stack reply : IbvioOpen) → Option (List Call × ℤ)
unfolding read_at chunks_of send_chunks
ibtl_dwrite c fd memory buf count stack reply = do
  host ← read_at c.host_ids fd
  let tag = serialize_tag (pos op_write) fd
  chunks ← chunks_of count ibvio_chunk_size
  some (
    send host tag (request (record stack { count = to_int count }))
        ∷ (send_chunks host tag memory buf chunks ++ recv_open host any_tag ∷ []),
    reply.stat,
  )

-- ibtl_write
unfoldable pub ibtl_write :
    Client → (fd : ℤ) → Memory → (buf count : ℕ) (stack reply : IbvioOpen) → Option (List Call × ℤ)
unfolding read_at chunks_of send_chunks
ibtl_write c fd memory buf count stack reply = do
  host ← read_at c.host_ids fd
  let tag = serialize_tag (pos op_write_begin) fd
  let chunk_tag = serialize_tag (pos op_write_chunk) fd
  chunks ← chunks_of count ibvio_chunk_size
  some (
    send host tag (request (record stack { count = to_int count }))
        ∷ (send_chunks host chunk_tag memory buf chunks ++ recv_open host any_tag ∷ []),
    reply.stat,
  )

-- ibtl_read: the result is read from the local structure, which no reply fills
unfoldable pub ibtl_read :
    Client → (fd : ℤ) (buf count : ℕ) (stack : IbvioOpen) → Option (List Call × ℤ)
unfolding read_at chunks_of recv_chunks
ibtl_read c fd buf count stack = do
  host ← read_at c.host_ids fd
  let tag = serialize_tag (pos op_read) fd
  chunks ← chunks_of count ibvio_chunk_size
  some (
    send host tag (request (record stack { count = to_int count }))
        ∷ recv_chunks host tag buf chunks,
    stack.stat,
  )

-- ibtl_close
unfoldable pub ibtl_close : Client → (fd : ℤ) (stack reply : IbvioOpen) → Option (List Call × ℤ)
unfolding read_at
ibtl_close c fd stack reply = do
  host ← read_at c.host_ids fd
  let tag = serialize_tag (pos op_close) fd
  some (send host tag (request stack) ∷ recv_open host any_tag ∷ [], reply.stat)
