-- ===== src/Ibio/Reading/Messages.antt =====
-- The messages that ibvio_sread sends have the bytes of the file, chunk by chunk.
use libibtl.Base.{
  ℕ, ◌+◌, ◌-◌, ◌≤◌, ◌<◌, ◌≡◌, refl, sym, ◌∙◌, List, [], ◌∷◌, min, arith, inl, inr, ◌⊎◌, ltb,
  Bool-cases, true, false, ◌&&◌, leb,
}
use libibtl.Datatype.{Memory, memcpy}
use libibtl.Ibio.{Payload, bytes}
use libibtl.Ibio.Chunks.{Chunk, Tiles}
use libibtl.Ibio.Server.{Event}
use libibtl.Ibio.Server.Reads.{dispatched, ReadFirst}
use libibtl.Ibio.Reading.{serve_events}

-- the chunks of a transfer are determined
pub Tiles-unique :
    (chunk_size count current : ℕ) (xs ys : List Chunk)
    → Tiles chunk_size count current xs
    → Tiles chunk_size count current ys
    → xs ≡ ys
Tiles-unique chunk_size count current [] [] t u = refl
Tiles-unique chunk_size count current [] ((at, size) ∷ ys) t (_, is_size, some_bytes, _) =
    absurd (omega (arith, t, is_size, some_bytes))
Tiles-unique chunk_size count current ((at, size) ∷ xs) [] (_, is_size, some_bytes, _) u =
    absurd (omega (arith, u, is_size, some_bytes))
Tiles-unique chunk_size count current ((at, size) ∷ xs) ((at', size') ∷ ys) (h, e, _, t)
      (h', e', _, u) =
    let same : size' ≡ size = e' ∙ sym e in
    let rest = Tiles-unique chunk_size count (current + size) xs ys t (rw (← same) u) in
    cc (h ∙ sym h', same, rest)

-- the messages have the bytes of the file, chunk by chunk
unfoldable pub Carries : (file : Memory) → List Chunk → List Payload → Type 0
Carries file [] [] = Unit
Carries file ((at, size) ∷ chunks) (bytes m here n ∷ messages) =
    ((i : ℕ) → i < size → m (here + i) ≡ file (at + i)) × (n ≡ size) × Carries file chunks messages
Carries file _ _ = ⊥

-- the cache has the first bytes of the file
unfoldable pub Cached : (file cache : Memory) (n : ℕ) → Type 0
Cached file cache n = (i : ℕ) → i < n → cache i ≡ file i

-- chunks that end within a length
unfoldable pub Within : (len : ℕ) → List Chunk → Type 0
Within len [] = Unit
Within len ((at, size) ∷ chunks) = (at + size ≤ len) × Within len chunks

pub Tiles-Within :
    (chunk_size count current len : ℕ) (chunks : List Chunk)
    → Tiles chunk_size count current chunks
    → count ≤ len
    → Within len chunks
unfolding Within
Tiles-Within chunk_size count current len [] t long = tt
Tiles-Within chunk_size count current len ((at, size) ∷ chunks) (here, is_size, some_bytes, t)
      long =
    (
      omega (arith, here, is_size, some_bytes, long),
      Tiles-Within chunk_size count (current + size) len chunks t long,
    )

Cached-memcpy :
    (file cache : Memory) (offset at n : ℕ)
    → (at ≡ offset) ⊎ (n ≡ 0)
    → Cached file cache offset
    → Cached file (memcpy file offset cache at n) (offset + n)
unfolding Cached memcpy
Cached-memcpy file cache offset at n (inl here) c i h = elim (Bool-cases (leb offset i)) [
  | inl behind ↦
      let inside : ltb i (offset + n) ≡ true = ground (arith, h) in
      let e : offset + (i - offset) ≡ i = ground (arith, behind) in
      rw (here, behind, inside, e) refl
  | inr before ↦ rw (here, before) (c i (ground (arith, before)))
]
Cached-memcpy file cache offset at n (inr nothing) c i h =
    let outside : (leb at i && ltb i (at + n)) ≡ false = ground (arith, nothing) in
    rw outside (c i (omega (arith, nothing, h)))

-- Where each send has been read before, the messages have the bytes of the file as far as it goes.
pub serve_events-Carries :
    (file : Memory) (len have offset : ℕ) (cache : Memory) (events : List Event)
    → ReadFirst have events
    → offset ≡ min have len
    → Cached file cache offset
    → Within len (dispatched events)
    → Carries file (dispatched events) (serve_events file len events offset cache)
unfolding dispatched serve_events Carries Cached Within
serve_events-Carries file len have offset cache [] order e c within = tt
serve_events-Carries file len have offset cache (Event.read_file at size ∷ events) (here, _, order)
      e c within =
    serve_events-Carries file len (at + size) _ _ events order (omega (arith, here, e))
      (Cached-memcpy file cache offset at (min size (len - offset)) (ground (arith, here, e)) c)
      within
serve_events-Carries file len have offset cache (Event.isend at size ∷ events) (inside, order) e c
      (short, within) =
    (
      λ i h. c (at + i) (omega (arith, inside, short, h, e)),
      refl,
      serve_events-Carries file len have offset cache events order e c within,
    )
serve_events-Carries file len have offset cache (Event.recv_open ∷ events) order e c within =
    serve_events-Carries file len have offset cache events order e c within
serve_events-Carries file len have offset cache (Event.irecv at size ∷ events) order e c within =
    serve_events-Carries file len have offset cache events order e c within
serve_events-Carries file len have offset cache (Event.wait ∷ events) order e c within =
    serve_events-Carries file len have offset cache events order e c within
serve_events-Carries file len have offset cache (Event.write_file at size ∷ events) order e c
      within =
    serve_events-Carries file len have offset cache events order e c within
serve_events-Carries file len have offset cache (Event.fsync ∷ events) order e c within =
    serve_events-Carries file len have offset cache events order e c within
serve_events-Carries file len have offset cache (Event.run_thread ∷ events) order e c within =
    serve_events-Carries file len have offset cache events order e c within
serve_events-Carries file len have offset cache (Event.reply iopen ∷ events) order e c within =
    serve_events-Carries file len have offset cache events order e c within
serve_events-Carries file len have offset cache (Event.close_file ∷ events) order e c within =
    serve_events-Carries file len have offset cache events order e c within
