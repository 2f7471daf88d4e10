-- ===== src/Ibio/Session.antt =====
-- examples/ibio_server.c, a write in chunks: ibvio_swrite_chunk, the thread that it starts for each
-- chunk, and the way in which these interleave, as the steps of one open file.
pub mod Invariant
pub mod Reached
pub mod Write
pub mod Progress
use libibtl.Base.{
  ℕ, zero, suc, ◌+◌, ◌-◌, ◌*◌, ◌%◌, ◌^◌, ◌≡◌, Bool, true, false, Option, none, some, List, [], ◌∷◌,
  ltb, leb, ◌==◌, if◌then◌else◌,
}
use libibtl.Datatype.{Memory, memcpy}
use libibtl.Ibio.{ibvio_chunk_size, buf_size, Payload, request, bytes, Call, send}
use libibtl.Ibio.Chunks.{◌>>=◌, Chunk}
use libibtl.Ibio.Server.{OpenInfo}

-- A file that is written to: the offset of the descriptor, and the bytes.
pub record File : Type 0 where
  pub position : ℕ
  pub content : Memory

-- The size of the next chunk, in ibvio_swrite_chunk and in its thread. The sum is one of `size_t`, and
-- a size below 0 is undefined.
unfoldable pub next_size : (total current : ℕ) → Option ℕ
next_size total current =
    if ltb total ((current + ibvio_chunk_size) % 2 ^ 64)
    then (if leb current total then some (total - current) else none)
    else some ibvio_chunk_size

-- The receive into the cache: the bytes of the message, as many as are asked for. A cache that is not
-- there or too small is undefined.
unfoldable pub recv_into : (cache : Option Memory) (at size : ℕ) → Payload → Option Memory
unfolding memcpy
recv_into (some cache) at size (bytes memory from n) =
    if leb (at + size) buf_size then some (memcpy memory from cache at size) else none
recv_into cache at size message = none

-- ibvio_swrite_chunk as far as the start of the thread
unfoldable pub ibvio_swrite_chunk : Payload → OpenInfo → Option OpenInfo
unfolding next_size recv_into
ibvio_swrite_chunk message info = do
  size ← next_size info.write_count info.current_recv_size
  cache ← recv_into info.cache info.current_recv_size size message
  some (record info { current_recv_size = info.current_recv_size + size; cache = some cache })

-- `write` from the cache: `written` is the number of bytes that it takes, or `none` for an error
unfoldable pub write_from : (written : Option ℕ) (cache : Memory) (at : ℕ) → File → Option File
unfolding memcpy
write_from none cache at file = none
write_from (some n) cache at file = some (record {
  position = file.position + n;
  content = memcpy cache at file.content file.position n;
})

-- ibvio_swrite_chunk_thread, which has the mutex from its start to its end. An error ends the process.
unfoldable pub ibvio_swrite_chunk_thread :
    (write : ℕ → Option ℕ) → OpenInfo → File → Option (OpenInfo × File)
unfolding next_size write_from
ibvio_swrite_chunk_thread write info file = do
  size ← next_size info.write_count info.current_write_count
  cache ← info.cache
  file' ← write_from (write size) cache info.current_write_count file
  some (record info { current_write_count = info.current_write_count + size }, file')

-- Where the server's main thread is: in its loop, in the loop of ibvio_swrite_chunk that waits for the
-- threads, or back in its own after the reply.
pub data Phase : Type 0 where
  serving waiting replied : Phase

-- the phase after a chunk: `if (oinfo->current_recv_size == oinfo->write_count)`
abbrev pub after_chunk : OpenInfo → Phase
after_chunk info =
    if info.current_recv_size == info.write_count then Phase.waiting else Phase.serving

-- the entry of the file in `open_info`, the chunks under way, the threads that have not run, the file
pub record Session : Type 0 where
  pub info : OpenInfo
  pub inbox : List Payload
  pub threads : ℕ
  pub file : File
  pub phase : Phase

-- One step: the main thread takes a chunk, to the start of its thread; a thread runs, from the lock of
-- the mutex to its release; or the main thread finds everything written and replies.
pub data Step (write : ℕ → Option ℕ) (s : Session) : Session → Type 0 where
  chunk :
      {message : Payload} {rest : List Payload} {info : OpenInfo}
      → s.phase ≡ Phase.serving
      → s.inbox ≡ message ∷ rest
      → ibvio_swrite_chunk message s.info ≡ some info
      → Step write s (record s {
        info = info;
        inbox = rest;
        threads = suc s.threads;
        phase = after_chunk info;
      })
  thread :
      {t : ℕ} {info : OpenInfo} {file : File}
      → s.threads ≡ suc t
      → ibvio_swrite_chunk_thread write s.info s.file ≡ some (info, file)
      → Step write s (record s { info = info; threads = t; file = file })
  reply :
      s.phase ≡ Phase.waiting
      → s.info.current_write_count ≡ s.info.write_count
      → Step write s (record s { phase = Phase.replied })

pub data Steps (write : ℕ → Option ℕ) (s : Session) : Session → Type 0 where
  start : Steps write s s
  later : {t u : Session} → Steps write s t → Step write t u → Steps write s u

-- The chunks that a client sends, out of the calls that it makes.
unfoldable pub sent : List Call → List Payload
sent [] = []
sent (send peer tag (bytes memory at size) ∷ calls) = bytes memory at size ∷ sent calls
sent (call ∷ calls) = sent calls

-- The session once ibvio_swrite_begin is done and the client has made its calls. ibvio_swrite_begin does
-- not seek: `offset` is where the descriptor stands.
unfoldable pub begin : OpenInfo → (offset : ℕ) (content : Memory) → List Call → Session
unfolding sent
begin info offset content calls = record {
  info = info;
  inbox = sent calls;
  threads = 0;
  file = record { position = offset; content = content };
  phase = Phase.serving;
}
