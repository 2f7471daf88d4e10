-- ===== src/Ibio/Session/Invariant.antt =====
-- examples/ibio_server.c, a write in chunks: what holds between any two steps. `j` chunks have been
-- received, and `k` threads have run.
use libibtl.Base.{
  ℕ, ◌+◌, ◌-◌, ◌*◌, ◌≤◌, ◌<◌, min, ◌≡◌, refl, sym, ap, ◌∙◌, true, leb, ltb, Bool-cases, Option,
  some, List, [], ◌∷◌, arith, inl, inr,
}
use libibtl.Datatype.{Memory, memcpy}
use libibtl.Datatype.Copy.{memcpy_in, memcpy_out}
use libibtl.Ibio.{ibvio_chunk_size, buf_size, Payload, bytes}
use libibtl.Ibio.Chunks.{◌>>=◌, Chunk, Tiles}
use libibtl.Ibio.Server.{OpenInfo}
use libibtl.Ibio.Session.{
  File, next_size, recv_into, ibvio_swrite_chunk, write_from, ibvio_swrite_chunk_thread, Phase,
  Session,
}

-- the messages of a client that sends the chunks of a buffer
unfoldable pub messages : Memory → (buf : ℕ) → List Chunk → List Payload
messages memory buf [] = []
messages memory buf ((at, size) ∷ chunks) =
    bytes memory (buf + at) size ∷ messages memory buf chunks

-- the first `n` bytes are those of the buffer
abbrev pub Holds : (memory : Memory) (buf n : ℕ) → Memory → Type 0
Holds memory buf n content = (a : ℕ) → a < n → content a ≡ memory (buf + a)

abbrev pub PhaseAt : (count : ℕ) → Phase → OpenInfo → Type 0
PhaseAt count Phase.serving info = info.current_recv_size < count
PhaseAt count Phase.waiting info = info.current_recv_size ≡ count
PhaseAt count Phase.replied info =
    (info.current_recv_size ≡ count) × (info.current_write_count ≡ count)

-- the counters of the file's entry, once `j` chunks are received and `k` are written
pub record Counted (count j k : ℕ) (info : OpenInfo) : Type 0 where
  pub total : info.write_count ≡ count
  pub received : info.current_recv_size ≡ min (j * ibvio_chunk_size) count
  pub written : info.current_write_count ≡ min (k * ibvio_chunk_size) count

-- `offset` is where the write begins in the file
pub record Inv (memory : Memory) (buf count offset : ℕ) (s : Session) : Type 0 where
  pub j : ℕ
  pub k : ℕ
  pub counted : Counted count j k s.info
  pub behind : k + s.threads ≡ j
  pub cache : Memory
  pub cached : s.info.cache ≡ some cache
  pub filled : Holds memory buf s.info.current_recv_size cache
  pub chunks : List Chunk
  pub tiles : Tiles ibvio_chunk_size count s.info.current_recv_size chunks
  pub arriving : s.inbox ≡ messages memory buf chunks
  pub at_end : s.file.position ≡ offset + s.info.current_write_count
  pub copied : Holds memory buf s.info.current_write_count (λ i. s.file.content (offset + i))
  pub at_phase : PhaseAt count s.phase s.info

pub next_size-min :
    (count current : ℕ)
    → count ≤ buf_size
    → current ≤ count
    → next_size count current ≡ some (min ibvio_chunk_size (count - current))
unfolding next_size
next_size-min count current fits h = ground arith

-- A copy at the end of what is held already holds more.
pub Holds-memcpy :
    (memory : Memory) (buf n size : ℕ) (from to : Memory) (source : ℕ)
    → Holds memory buf n to
    → ((a : ℕ) → a < size → from (source + a) ≡ memory (buf + (n + a)))
    → Holds memory buf (n + size) (memcpy from source to n size)
unfolding memcpy
Holds-memcpy memory buf n size from to source old new a h = elim (Bool-cases (leb n a)) [
  | inl after ↦
      let inside : ltb a (n + size) ≡ true = ground arith in
      let le : n ≤ a = ground arith in
      let e : n + (a - n) ≡ a = omega arith in rw (after, inside, new (a - n) (omega arith), e) refl
  | inr before ↦ rw before (old a (ground arith))
]

-- the same in a file, from an offset on
pub Holds-memcpy_at :
    (memory : Memory) (buf n size offset : ℕ) (from to : Memory) (source : ℕ)
    → Holds memory buf n (λ i. to (offset + i))
    → ((a : ℕ) → a < size → from (source + a) ≡ memory (buf + (n + a)))
    → Holds memory buf (n + size) (λ i. memcpy from source to (offset + n) size (offset + i))
Holds-memcpy_at memory buf n size offset from to source old new a h = elim (Bool-cases (leb n a)) [
  | inl after ↦
      let o = a - n in
      let small : o < size = ground (arith, after, h) in
      let there : offset + a ≡ offset + n + o = ground (arith, after) in
      let here : n + o ≡ a = ground (arith, after) in
      ap (memcpy from source to (offset + n) size) there
      ∙ memcpy_in from source to (offset + n) size o small
      ∙ new o small
      ∙ ap (λ k. memory (buf + k)) here
  | inr before ↦
      memcpy_out from source to (offset + n) size (offset + a)
        (λ o small e. absurd (ground (arith, before, e)))
      ∙ old a (ground (arith, before))
]

-- the entry after a chunk of the client's buffer
pub swrite_chunk-run :
    (memory : Memory) (buf count at size : ℕ) (info : OpenInfo) (cache : Memory)
    → count ≤ buf_size
    → info.write_count ≡ count
    → info.current_recv_size ≡ at
    → at ≤ count
    → size ≡ min ibvio_chunk_size (count - at)
    → info.cache ≡ some cache
    → ibvio_swrite_chunk (bytes memory (buf + at) size) info
      ≡ some (record info {
        current_recv_size = at + size;
        cache = some (memcpy memory (buf + at) cache at size);
      })
unfolding ibvio_swrite_chunk recv_into
swrite_chunk-run memory buf count at size info cache fits total here h is_size cached =
    let sized : next_size count at ≡ some size =
      next_size-min count at fits h ∙ ap some (sym is_size) in
    let room : leb (at + size) buf_size ≡ true = ground arith in
    rw (total, here, sized, ◌>>=◌, cached, room) refl

-- the entry and the file after a thread
pub swrite_chunk_thread-run :
    (write : ℕ → Option ℕ) (count : ℕ) (info : OpenInfo) (cache : Memory) (file : File)
    → ((n : ℕ) → write n ≡ some n)
    → count ≤ buf_size
    → info.write_count ≡ count
    → info.current_write_count ≤ count
    → info.cache ≡ some cache
    → let at = info.current_write_count in
      let size = min ibvio_chunk_size (count - at) in
      ibvio_swrite_chunk_thread write info file
      ≡ some (
        record info { current_write_count = at + size },
        record {
          position = file.position + size;
          content = memcpy cache at file.content file.position size;
        },
      )
unfolding ibvio_swrite_chunk_thread write_from
swrite_chunk_thread-run write count info cache file full fits total h cached =
    let at = info.current_write_count in
    rw
      (
        total,
        next_size-min count at fits h,
        ◌>>=◌,
        cached,
        full (min ibvio_chunk_size (count - at)),
      )
      refl
