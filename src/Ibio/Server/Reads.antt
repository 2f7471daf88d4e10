-- ===== src/Ibio/Server/Reads.antt =====
-- examples/ibio_server.c, ibvio_sread: what stands in the trace of its calls.
use libibtl.Base.{
  ℕ, zero, suc, ◌+◌, ◌*◌, ◌≤◌, ◌<◌, ◌≡◌, refl, sym, ap, subst, ◌∙◌, some, List, [], ◌∷◌, arith, ◌⊎◌,
  inl, inr, length, ltb, Bool-cases, false,
}
use libibtl.Ibio.{ibvio_chunk_size, buf_size}
use libibtl.Ibio.Chunks.{◌>>=◌, Chunk, Tiles, add_int, chunks_of-Tiles}
use libibtl.Ibio.Server.{Event, sread_loop, ibvio_sread}
use libibtl.Ibio.Server.Traces.{Tiles-length, clip-size}

-- the chunks that are sent
unfoldable pub dispatched : List Event → List Chunk
dispatched [] = []
dispatched (Event.isend at size ∷ events) = (at, size) ∷ dispatched events
dispatched (event ∷ events) = dispatched events

-- Each read goes on where the last one ended and stays within the cache, and what is sent has been read.
abbrev pub ReadFirst : (have : ℕ) → List Event → Type 0
ReadFirst have [] = Unit
ReadFirst have (Event.read_file at size ∷ events) =
    (at ≡ have) × (at + size ≤ buf_size) × ReadFirst (at + size) events
ReadFirst have (Event.isend at size ∷ events) = (at + size ≤ have) × ReadFirst have events
ReadFirst have (event ∷ events) = ReadFirst have events

-- `m` chunks are in the cache: all of the transfer, or more than what has been sent.
sread_loop-ReadFirst :
    (count : ℕ)
    → count ≤ buf_size
    → (rounds current chunk_size m : ℕ) (chunks : List Chunk)
    → Tiles ibvio_chunk_size count current chunks
    → length chunks < rounds
    → (chunk_size ≡ ibvio_chunk_size) ⊎ (current ≡ count)
    → m * ibvio_chunk_size ≤ buf_size
    → (count ≤ m * ibvio_chunk_size) ⊎ (current + ibvio_chunk_size ≤ m * ibvio_chunk_size)
    → (events : List Event) × (sread_loop rounds count current chunk_size (m * ibvio_chunk_size)
        ≡ some events)
      × (dispatched events ≡ chunks)
      × ReadFirst (m * ibvio_chunk_size) events
unfolding sread_loop dispatched
sread_loop-ReadFirst count fits zero current chunk_size m chunks tiles few same room ahead =
    absurd (omega (arith, few))
sread_loop-ReadFirst count fits (suc rounds) current chunk_size m [] tiles few same room ahead =
    let outside : ltb current count ≡ false = ground (arith, tiles) in
    ([], rw outside refl, refl, tt)
sread_loop-ReadFirst count fits (suc rounds) current chunk_size m ((at, size) ∷ chunks)
      (here, is_size, pos, tiles) few same room ahead =
    let (clipped, summed, same', inside) =
      clip-size count current chunk_size size (omega (arith, fits)) same is_size pos in
    let sent_first : current + size ≤ m * ibvio_chunk_size = elim ahead [
      | inl all ↦ omega (arith, all, is_size, pos)
      | inr more ↦ omega (arith, more, is_size)
    ] in
    elim (Bool-cases (ltb (m * ibvio_chunk_size) count)) [
      | inl more ↦
          let moved : add_int (m * ibvio_chunk_size) ibvio_chunk_size
              ≡ some (suc m * ibvio_chunk_size) =
            ground (arith, room) in
          let (events, run, got, order) =
            sread_loop-ReadFirst count fits rounds (current + size) size (suc m) chunks tiles
              (omega (arith, few)) same' (ground (arith, more, fits))
              (inr (ground (arith, more, ahead, is_size))) in
          (
            Event.isend current size
                ∷ Event.read_file (m * ibvio_chunk_size) ibvio_chunk_size
                ∷ Event.wait
                ∷ events,
            rw (inside, more, clipped, summed, moved, ◌>>=◌, run) refl,
            ap (λ cs. (current, size) ∷ cs) got ∙ ap (λ n. (n, size) ∷ chunks) (sym here),
            (
              sent_first,
              (
                refl,
                ground (arith, more, fits),
                subst (λ n. ReadFirst n events) (omega arith) order,
              ),
            ),
          )
      | inr all ↦
          let (events, run, got, order) =
            sread_loop-ReadFirst count fits rounds (current + size) size m chunks tiles
              (omega (arith, few)) same' room (inl (ground (arith, all))) in
          (
            Event.isend current size ∷ Event.wait ∷ events,
            rw (inside, all, clipped, summed, ◌>>=◌, run) refl,
            ap (λ cs. (current, size) ∷ cs) got ∙ ap (λ n. (n, size) ∷ chunks) (sym here),
            (sent_first, order),
          )
    ]

-- Let the count of a read be at most the size of the cache. Then ibvio_sread sends the chunks of the
-- transfer in order, and each only after its bytes have been read; its reads go on from one another and
-- do not run over the end of the cache, although each asks for a whole chunk.
pub ibvio_sread-ReadFirst :
    (count : ℕ)
    → count ≤ buf_size
    → (events : List Event) × (chunks : List Chunk) × (ibvio_sread count ≡ some events)
      × Tiles ibvio_chunk_size count 0 chunks
      × (dispatched events ≡ chunks)
      × ReadFirst 0 events
unfolding ibvio_sread dispatched
ibvio_sread-ReadFirst count fits =
    let (chunks, cut, tiles) =
      chunks_of-Tiles count ibvio_chunk_size (omega arith) (omega (arith, fits)) in
    let (events, run, got, order) =
      sread_loop-ReadFirst count fits (count + 1) 0 ibvio_chunk_size 1 chunks tiles
        (omega (arith, Tiles-length ibvio_chunk_size count 0 chunks tiles)) (inl refl) (omega arith)
        (inr (omega arith)) in
    (
      Event.recv_open ∷ Event.read_file 0 ibvio_chunk_size ∷ events,
      chunks,
      rw (run, ◌>>=◌) refl,
      tiles,
      got,
      (refl, omega arith, order),
    )
