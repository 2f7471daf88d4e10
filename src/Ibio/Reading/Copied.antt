-- ===== src/Ibio/Reading/Copied.antt =====
-- What ibtl_read has in its buffer when it returns: the bytes of the file.
use libibtl.Base.{
  ℕ, ◌+◌, ◌-◌, ◌≤◌, ◌<◌, ◌≡◌, ◌≢◌, refl, sym, ap, subst, ◌∙◌, some, List, [], ◌∷◌, arith, inl, inr,
  ltb, Bool-cases,
}
use libibtl.Base.Int.{ℤ, pos, to_int}
use libibtl.Datatype.{Memory, memcpy}
use libibtl.Datatype.Copy.{memcpy_in, memcpy_out}
use libibtl.ProcMan.{read_at}
use libibtl.Ibio.{
  ibvio_chunk_size, buf_size, IbvioOpen, Payload, request, bytes, op_read, Call, send,
}
use libibtl.Ibio.Tag.{serialize_tag}
use libibtl.Ibio.Chunks.{◌>>=◌, Chunk, Tiles, chunks_of-Tiles}
use libibtl.Ibio.Client.{Client, recv_chunks, ibtl_read}
use libibtl.Ibio.Server.{Event, ibvio_sread}
use libibtl.Ibio.Server.Reads.{dispatched, ibvio_sread-ReadFirst}
use libibtl.Ibio.Reading.{serve_events, make_client_calls}
use libibtl.Ibio.Reading.Shift.{serve_events-shift}
use libibtl.Ibio.Reading.Messages.{
  Tiles-unique, Carries, Cached, Within, Tiles-Within, serve_events-Carries,
}

-- From `current` to `count`, the buffer has the bytes of the file, and nothing else has changed.
pub record Filled (file : Memory) (buf current count : ℕ) (memory memory' : Memory) : Type 0 where
  pub bytes_read : (i : ℕ) → current ≤ i → i < count → memory' (buf + i) ≡ file i
  pub elsewhere : (a : ℕ) → ((i : ℕ) → current ≤ i → i < count → a ≢ buf + i) → memory' a ≡ memory a

Filled-cons :
    (file m memory memory' : Memory) (buf here current size count : ℕ)
    → current + size ≤ count
    → ((i : ℕ) → i < size → m (here + i) ≡ file (current + i))
    → Filled file buf (current + size) count (memcpy m here memory (buf + current) size) memory'
    → Filled file buf current count memory memory'
Filled-cons file m memory memory' buf here current size count fits carried f = record {
  bytes_read = λ i from to. elim (Bool-cases (ltb i (current + size))) [
    | inl first ↦
        let o = i - current in
        let small : o < size = ground (arith, first, from) in
        let at_i : buf + i ≡ buf + current + o = omega (arith, from) in
        let is_i : current + o ≡ i = omega (arith, from) in
        f.elsewhere (buf + i) (λ j later below e. absurd (ground (arith, first, later, e)))
        ∙ ap (memcpy m here memory (buf + current) size) at_i
        ∙ memcpy_in m here memory (buf + current) size o small
        ∙ carried o small
        ∙ ap file is_i
    | inr later ↦ f.bytes_read i (ground (arith, later)) to
  ];
  elsewhere = λ a out.
      f.elsewhere a (λ i later below. out i (omega (arith, later)) below)
      ∙ memcpy_out m here memory (buf + current) size a (λ o small e.
        out (current + o) (omega arith) (omega (arith, small, fits)) (omega (arith, e)));
}

recv_chunks-Filled :
    (file : Memory) (host tag : ℤ) (buf chunk_size count current : ℕ) (chunks : List Chunk)
    (messages : List Payload) (memory : Memory)
    → Tiles chunk_size count current chunks
    → Carries file chunks messages
    → (memory' : Memory) × (make_client_calls (recv_chunks host tag buf chunks) messages memory
        ≡ some memory')
      × Filled file buf current count memory memory'
unfolding recv_chunks make_client_calls Carries
recv_chunks-Filled file host tag buf chunk_size count current [] [] memory t c = (
  memory,
  refl,
  record {
    bytes_read = λ i from to. absurd (omega (arith, t, from, to));
    elsewhere = λ a out. refl;
  },
)
recv_chunks-Filled file host tag buf chunk_size count current ((at, size) ∷ chunks)
      (bytes m here n ∷ messages) memory (is_at, is_size, some_bytes, t) (carried, is_n, c) =
    let (memory', made, filled) =
      recv_chunks-Filled file host tag buf chunk_size count (current + size) chunks messages
        (memcpy m here memory (buf + at) n) t c in
    (
      memory',
      made,
      Filled-cons file m memory memory' buf here current size count
          (omega (arith, is_size, some_bytes)) (λ i h. carried i h ∙ ap (λ k. file (k + i)) is_at)
          (subst
            (λ k.
              Filled file buf (current + size) count (memcpy m here memory (buf + k) size) memory')
            is_at
            (subst
              (λ k.
                Filled file buf (current + size) count (memcpy m here memory (buf + at) k) memory')
              is_n filled)),
    )
recv_chunks-Filled file host tag buf chunk_size count current [] (m ∷ messages) memory t c =
    elim c [ ]
recv_chunks-Filled file host tag buf chunk_size count current ((at, size) ∷ chunks) [] memory t c =
    elim c [ ]
recv_chunks-Filled file host tag buf chunk_size count current ((at, size) ∷ chunks)
      (request iopen ∷ messages) memory t c =
    elim c [ ]

-- a read that begins where the file does
ibtl_read-Filled_start :
    (c : Client) (fd host : ℤ) (buf count len : ℕ) (stack : IbvioOpen) (file cache memory : Memory)
    → read_at c.host_ids fd ≡ some host
    → count ≤ buf_size
    → count ≤ len
    → (calls : List Call) × (events : List Event) × (memory' : Memory) × (ibtl_read c fd buf count
          stack
        ≡ some (calls, stack.stat))
      × (ibvio_sread count ≡ some events)
      × (make_client_calls calls (serve_events file len events 0 cache) memory ≡ some memory')
      × Filled file buf 0 count memory memory'
unfolding ibtl_read make_client_calls Cached
ibtl_read-Filled_start c fd host buf count len stack file cache memory found fits long =
    let tag = serialize_tag (pos op_read) fd in
    let (chunks, cut, tiles) =
      chunks_of-Tiles count ibvio_chunk_size (omega arith) (omega (arith, fits)) in
    let (events, chunks', run, tiles', got, order) = ibvio_sread-ReadFirst count fits in
    let same : dispatched events ≡ chunks =
      got ∙ Tiles-unique ibvio_chunk_size count 0 chunks' chunks tiles' tiles in
    let carried : Carries file chunks (serve_events file len events 0 cache) =
      subst (λ cs. Carries file cs (serve_events file len events 0 cache)) same
        (serve_events-Carries file len 0 0 cache events order (omega arith)
          (λ i h. absurd (omega (arith, h)))
          (subst (Within len) (sym same)
            (Tiles-Within ibvio_chunk_size count 0 len chunks tiles long))) in
    let (memory', made, filled) =
      recv_chunks-Filled file host tag buf ibvio_chunk_size count 0 chunks _ memory tiles carried in
    (
      send host tag (request (record stack { count = to_int count }))
          ∷ recv_chunks host tag buf chunks,
      events,
      memory',
      rw (found, ◌>>=◌, cut) refl,
      run,
      made,
      filled,
    )

-- Let a descriptor be open, and stand at an offset behind which its file has at least `count` bytes, and
-- the cache of the server have room for as many. Then ibtl_read and ibvio_sread end, the receives of the
-- one get the messages of the other, and afterwards the buffer of the client has the next `count` bytes
-- of the file, from the offset on, and its memory elsewhere is as it was.
pub ibtl_read-Filled :
    (c : Client) (fd host : ℤ) (buf count len offset : ℕ) (stack : IbvioOpen)
    (file cache memory : Memory)
    → read_at c.host_ids fd ≡ some host
    → count ≤ buf_size
    → offset + count ≤ len
    → (calls : List Call) × (events : List Event) × (memory' : Memory) × (ibtl_read c fd buf count
          stack
        ≡ some (calls, stack.stat))
      × (ibvio_sread count ≡ some events)
      × (make_client_calls calls (serve_events file len events offset cache) memory ≡ some memory')
      × Filled (λ i. file (offset + i)) buf 0 count memory memory'
ibtl_read-Filled c fd host buf count len offset stack file cache memory found fits long =
    let rest : Memory = λ i. file (offset + i) in
    let (calls, events, memory', asked, served, made, filled) =
      ibtl_read-Filled_start c fd host buf count (len - offset) stack rest cache memory found fits
        (omega (arith, long)) in
    let stands : offset + 0 ≡ offset = omega arith in
    let shifted : serve_events file len events offset cache
        ≡ serve_events rest (len - offset) events 0 cache =
      ap (λ o. serve_events file len events o cache) (sym stands)
      ∙ serve_events-shift file len offset 0 cache events in
    (calls, events, memory', asked, served, rw shifted made, filled)
