-- ===== src/Ibio/Server/Traces.antt =====
-- examples/ibio_server.c, ibvio_swrite: what stands in the trace of its calls.
use libibtl.Base.{
  ℕ, zero, suc, ◌+◌, ◌-◌, ◌^◌, ◌≤◌, ◌<◌, min, ◌≡◌, refl, sym, ap, ◌∙◌, some, List, [], ◌∷◌, ◌++◌,
  arith, ◌⊎◌, inl, inr, length, ltb, lt→ltb, Bool-cases, true, false,
}
use libibtl.Base.Int.{ℤ, pos, to_u64}
use libibtl.Ibio.{ibvio_chunk_size, IbvioOpen}
use libibtl.Ibio.Chunks.{◌>>=◌, Chunk, Tiles, clip, clip-min, add_int, chunks_of, chunks_of-Tiles}
use libibtl.Ibio.Server.{Event, swrite_loop, ibvio_swrite}

-- the chunks that are received, and those that are written
unfoldable pub received : List Event → List Chunk
received [] = []
received (Event.irecv at size ∷ events) = (at, size) ∷ received events
received (event ∷ events) = received events

unfoldable pub written : List Event → List Chunk
written [] = []
written (Event.write_file at size ∷ events) = (at, size) ∷ written events
written (event ∷ events) = written events

unfoldable pub shift : (base : ℕ) → List Chunk → List Chunk
shift base [] = []
shift base ((at, size) ∷ chunks) = (base + at, size) ∷ shift base chunks

-- Each receive goes on where the last one ended, and a write, but for its shift by `base`, stays within
-- the bytes whose receive has been waited for.
abbrev pub InOrder : (base waited posted : ℕ) → List Event → Type 0
InOrder base waited posted [] = Unit
InOrder base waited posted (Event.irecv at size ∷ events) =
    (at ≡ waited) × InOrder base waited (at + size) events
InOrder base waited posted (Event.wait ∷ events) = InOrder base posted posted events
InOrder base waited posted (Event.write_file at size ∷ events) =
    (at + size ≤ base + waited) × InOrder base waited posted events
InOrder base waited posted (event ∷ events) = InOrder base waited posted events

pub Tiles-length :
    (chunk_size count current : ℕ) (chunks : List Chunk)
    → Tiles chunk_size count current chunks
    → length chunks + current ≤ count
Tiles-length chunk_size count current [] tiles = omega (arith, tiles)
Tiles-length chunk_size count current ((at, size) ∷ chunks) (here, is_size, positive, tiles) =
    omega (arith, Tiles-length chunk_size count (current + size) chunks tiles, positive)

-- what ibvio_swrite does behind its loop
abbrev pub finish : (ws wcs : ℕ) → IbvioOpen → List Event
finish ws wcs iopen = Event.write_file ws wcs ∷ Event.fsync ∷ Event.reply iopen ∷ []

-- `current` is in range of the loop, and the size of a chunk is still the whole one where it is needed
pub clip-size :
    (count current chunk_size size : ℕ)
    → count + ibvio_chunk_size < 2 ^ 31
    → (chunk_size ≡ ibvio_chunk_size) ⊎ (current ≡ count)
    → size ≡ min ibvio_chunk_size (count - current)
    → 0 < size
    → (clip count current chunk_size ≡ some size)
      × (add_int current size ≡ some (current + size))
      × ((size ≡ ibvio_chunk_size) ⊎ (current + size ≡ count))
      × (ltb current count ≡ true)
clip-size count current chunk_size size fits (inl whole) is_size positive = (
  rw whole (clip-min count current ibvio_chunk_size (omega (arith, is_size, positive)) fits)
      ∙ ap some (sym is_size),
  ground arith,
  elim (Bool-cases (ltb (current + size) count)) [
    | inl more ↦ inl (ground arith)
    | inr last ↦ inr (ground arith)
  ],
  lt→ltb _ _ (omega (arith, is_size, positive)),
)
clip-size count current chunk_size size fits (inr end) is_size positive =
    absurd (omega (arith, is_size, positive, end))

-- the loop behind its first round, and what follows it
module _ (base count : ℕ) (fits : base + count + ibvio_chunk_size < 2 ^ 31)
    (iopen : IbvioOpen) where
  swrite_loop-Writes :
      (rounds current chunk_size write_size write_chunk_size : ℕ) (chunks : List Chunk)
      → Tiles ibvio_chunk_size count current chunks
      → length chunks < rounds
      → (chunk_size ≡ ibvio_chunk_size) ⊎ (current ≡ count)
      → 0 < current
      → write_size + write_chunk_size ≡ base + current
      → (events : List Event) × (ws : ℕ) × (wcs : ℕ) × (swrite_loop rounds count current chunk_size
            write_size write_chunk_size
          ≡ some (events, ws, wcs))
        × (received (events ++ finish ws wcs iopen) ≡ chunks)
        × (written (events ++ finish ws wcs iopen)
            ≡ (write_size, write_chunk_size) ∷ shift base chunks)
        × InOrder base current current (events ++ finish ws wcs iopen)
  unfolding swrite_loop received written shift
  swrite_loop-Writes zero current chunk_size write_size write_chunk_size chunks tiles few same later
        pending =
      absurd (omega (arith, few))
  swrite_loop-Writes (suc rounds) current chunk_size write_size write_chunk_size [] tiles few same
        later pending =
      let outside : ltb current count ≡ false = ground (arith, tiles) in
      ([], write_size, write_chunk_size, rw outside refl, refl, refl, (omega (arith, pending), tt))
  swrite_loop-Writes (suc rounds) current chunk_size write_size write_chunk_size
        ((at, size) ∷ chunks) (here, is_size, positive, tiles) few same later pending =
      let (clipped, summed, same', inside) =
        clip-size count current chunk_size size (omega (arith, fits)) same is_size positive in
      let moved : add_int write_size write_chunk_size ≡ some (base + current) =
        ground (arith, inside, fits, pending) in
      let (events, ws, wcs, run, got, put, order) =
        swrite_loop-Writes rounds (current + size) size (base + current) size chunks tiles
          (omega (arith, few)) same' (omega (arith, later)) (omega arith) in
      (
        Event.irecv current size
            ∷ Event.write_file write_size write_chunk_size
            ∷ Event.wait
            ∷ events,
        ws,
        wcs,
        rw (inside, lt→ltb _ _ later, clipped, moved, summed, ◌>>=◌, run) refl,
        ap (λ cs. (current, size) ∷ cs) got ∙ ap (λ n. (n, size) ∷ chunks) (sym here),
        ap (λ cs. (write_size, write_chunk_size) ∷ cs)
            (put ∙ ap (λ n. (base + n, size) ∷ shift base chunks) (sym here)),
        (refl, (omega (arith, pending), order)),
      )

-- the first round writes nothing
swrite_loop_first :
    (rounds count chunk_size write_size write_chunk_size size : ℕ) (events : List Event)
    (ws wcs : ℕ)
    → clip count 0 chunk_size ≡ some size
    → add_int 0 size ≡ some (0 + size)
    → ltb 0 count ≡ true
    → swrite_loop rounds count (0 + size) size write_size size ≡ some (events, ws, wcs)
    → swrite_loop (suc rounds) count 0 chunk_size write_size write_chunk_size
      ≡ some (Event.irecv 0 size ∷ Event.wait ∷ events, ws, wcs)
unfolding swrite_loop
swrite_loop_first rounds count chunk_size write_size write_chunk_size size events ws wcs clipped
      summed inside run =
    rw (inside, clipped, summed, ◌>>=◌, run) refl

zero_at : (base at : ℕ) → at ≡ 0 → base ≡ base + at
zero_at base at here = omega (arith, here)

-- Let the count of a write be at least 1, and the count, one chunk and the value that `write_size` starts
-- with, which is not negative, together fit an `int`. Then ibvio_swrite receives the chunks of the transfer in order and writes
-- just these, each as far from its place in the cache as `write_size` was from 0 at the start, and, but
-- for this shift, no byte before its receive has been waited for.
pub ibvio_swrite-written :
    (write_size : ℕ) (write_chunk_size : ℤ) (count : ℕ) (iopen : IbvioOpen)
    → 0 < count
    → write_size + count + ibvio_chunk_size < 2 ^ 31
    → (events : List Event) × (chunks : List Chunk) × (ibvio_swrite
          (pos write_size)
          write_chunk_size
          count
          iopen
        ≡ some events)
      × Tiles ibvio_chunk_size count 0 chunks
      × (received events ≡ chunks)
      × (written events ≡ shift write_size chunks)
      × InOrder write_size 0 0 events
unfolding ibvio_swrite swrite_loop received written shift
ibvio_swrite-written write_size write_chunk_size count iopen positive fits =
    first (chunks_of-Tiles count ibvio_chunk_size (omega arith) (omega (arith, fits)))
  where
    first :
        (chunks : List Chunk) × (chunks_of count ibvio_chunk_size ≡ some chunks)
          × Tiles ibvio_chunk_size count 0 chunks
        → (events : List Event) × (chunks : List Chunk) × (ibvio_swrite
              (pos write_size)
              write_chunk_size
              count
              iopen
            ≡ some events)
          × Tiles ibvio_chunk_size count 0 chunks
          × (received events ≡ chunks)
          × (written events ≡ shift write_size chunks)
          × InOrder write_size 0 0 events
    first ([], cut, tiles) = absurd (omega (arith, tiles, positive))
    first ((at, size) ∷ chunks, cut, (here, is_size, some_size, tiles)) =
        let (clipped, summed, same, inside) =
          clip-size count 0 ibvio_chunk_size size (omega (arith, fits)) (inl refl) is_size
            some_size in
        let (events, ws, wcs, run, got, put, order) =
          swrite_loop-Writes write_size count fits iopen count (0 + size) size write_size size
            chunks tiles
            (omega (arith, some_size, Tiles-length ibvio_chunk_size count (0 + size) chunks tiles))
            same (omega (arith, some_size)) (omega arith) in
        let one_more : count + 1 ≡ suc count = omega arith in
        (
          Event.recv_open ∷ Event.irecv 0 size ∷ Event.wait ∷ (events ++ finish ws wcs iopen),
          (at, size) ∷ chunks,
          rw
              (
                one_more,
                swrite_loop_first count count ibvio_chunk_size write_size (to_u64 write_chunk_size)
                    size events ws wcs clipped summed inside run,
                ◌>>=◌,
              )
              refl,
          (here, is_size, some_size, tiles),
          ap (λ cs. (0, size) ∷ cs) got ∙ ap (λ n. (n, size) ∷ chunks) (sym here),
          put ∙ ap (λ n. (n, size) ∷ shift write_size chunks) (zero_at write_size at here),
          (refl, order),
        )
