-- ===== src/Ibio/Chunks.antt =====
-- The loop that cuts a transfer into chunks: in ibtl_write, ibtl_dwrite and ibtl_read of
-- examples/ibio_client.c, and in ibvio_swrite and ibvio_sread of examples/ibio_server.c.
use libibtl.Base.{
  ℕ, zero, suc, ◌+◌, ◌-◌, ◌^◌, ◌≤◌, ◌<◌, min, ◌≡◌, refl, ap, ◌∙◌, Option, none, some, List, [], ◌∷◌,
  arith, ltb, ltb→lt, lt→ltb, if◌then◌else◌, Bool-cases, inl, inr,
}

infixl 5 ◌>>=◌
abbrev pub ◌>>=◌ {ℓ κ} : {A : Type ℓ} {B : Type κ} → Option A → (A → Option B) → Option B
none >>= f = none
some a >>= f = f a

-- an offset and a size
abbrev pub Chunk : Type 0
Chunk = ℕ × ℕ

-- the sum of two `int` values that are not negative; an overflow is undefined
abbrev pub add_int : ℕ → ℕ → Option ℕ
add_int a b = if ltb (a + b) (2 ^ 31) then some (a + b) else none

-- `if (current + chunk_size > count) chunk_size = count - current`
unfoldable pub clip : (count current chunk_size : ℕ) → Option ℕ
clip count current chunk_size = do
  sum ← add_int current chunk_size
  some (if ltb count sum then count - current else chunk_size)

-- while (current < count) { ... current += chunk_size; }, with its chunks
unfoldable pub chunk_loop : (rounds count current chunk_size : ℕ) → Option (List Chunk)
unfolding clip
chunk_loop zero count current chunk_size = none
chunk_loop (suc rounds) count current chunk_size =
    let body = (do
      size ← clip count current chunk_size
      next ← add_int current size
      rest ← chunk_loop rounds count next size
      some ((current, size) ∷ rest)) in
    if ltb current count then body else some []

-- Each round moves on by a byte at least.
unfoldable pub chunks_of : (count chunk_size : ℕ) → Option (List Chunk)
unfolding chunk_loop
chunks_of count chunk_size = chunk_loop (count + 1) count 0 chunk_size

-- the chunks cover the bytes from `current` to `count`, each as large as it can be
abbrev pub Tiles : (chunk_size count current : ℕ) → List Chunk → Type 0
Tiles chunk_size count current [] = current ≡ count
Tiles chunk_size count current ((at, size) ∷ chunks) =
    (at ≡ current)
    × (size ≡ min chunk_size (count - current))
    × (0 < size)
    × Tiles chunk_size count (current + size) chunks

chunk_loop-done :
    (rounds count chunk_size : ℕ) → chunk_loop (suc rounds) count count chunk_size ≡ some []
unfolding chunk_loop
chunk_loop-done rounds count chunk_size = ground arith

pub clip-min :
    (count current chunk_size : ℕ)
    → current ≤ count
    → count + chunk_size < 2 ^ 31
    → clip count current chunk_size ≡ some (min chunk_size (count - current))
unfolding clip
clip-min count current chunk_size h fits = ground arith

chunk_loop-step :
    (rounds count current chunk_size size : ℕ) (rest : List Chunk)
    → current < count
    → count + chunk_size < 2 ^ 31
    → size ≡ min chunk_size (count - current)
    → chunk_loop rounds count (current + size) size ≡ some rest
    → chunk_loop (suc rounds) count current chunk_size ≡ some ((current, size) ∷ rest)
unfolding chunk_loop
chunk_loop-step rounds count current chunk_size size rest more fits e after =
    let clipped : clip count current chunk_size ≡ some size =
      clip-min count current chunk_size (omega arith) fits ∙ ap some (omega arith) in
    let summed : add_int current size ≡ some (current + size) = ground arith in
    rw (lt→ltb current count more, clipped, ◌>>=◌, summed, after) refl

-- A loop that starts within the transfer, with a round for each byte that is left and one more, ends.
chunk_loop-Tiles :
    (rounds count current chunk_size : ℕ)
    → 0 < chunk_size
    → count + chunk_size < 2 ^ 31
    → current ≤ count
    → count - current < rounds
    → (chunks : List Chunk) × (chunk_loop rounds count current chunk_size ≡ some chunks)
      × Tiles chunk_size count current chunks
unfolding chunk_loop
chunk_loop-Tiles zero count current chunk_size pos fits h fuel = absurd (omega arith)
chunk_loop-Tiles (suc zero) count current chunk_size pos fits h fuel =
    let e : current ≡ count = omega arith in ([], rw e (chunk_loop-done 0 count chunk_size), e)
chunk_loop-Tiles (suc (suc rounds)) count current chunk_size pos fits h fuel =
    elim (Bool-cases (ltb (current + chunk_size) count)) [
      | inl more ↦
          let small = ltb→lt _ _ more in
          let (rest, run, tiles) =
            chunk_loop-Tiles (suc rounds) count (current + chunk_size) chunk_size pos fits
              (omega arith) (omega arith) in
          (
            (current, chunk_size) ∷ rest,
            chunk_loop-step (suc rounds) count current chunk_size chunk_size rest (omega arith) fits
                (omega arith) run,
            (refl, omega arith, pos, tiles),
          )
      | inr last ↦ elim (Bool-cases (ltb current count)) [
        | inl inside ↦
            let lt = ltb→lt _ _ inside in
            let size = count - current in
            let large : count ≤ current + chunk_size = ground arith in
            let end : current + size ≡ count = omega arith in
            (
              (current, size) ∷ [],
              chunk_loop-step (suc rounds) count current chunk_size size [] lt fits (omega arith)
                  (rw end (chunk_loop-done rounds count size)),
              (refl, omega arith, omega arith, end),
            )
        | inr outside ↦
            let e : current ≡ count = ground arith in
            ([], rw e (chunk_loop-done (suc rounds) count chunk_size), e)
      ]
    ]

-- The chunk loop ends, without an overflow where the transfer and one chunk together fit an `int`, and
-- its chunks are the bytes of the transfer in order, none twice and none left out, each chunk as large
-- as it can be.
pub chunks_of-Tiles :
    (count chunk_size : ℕ)
    → 0 < chunk_size
    → count + chunk_size < 2 ^ 31
    → (chunks : List Chunk) × (chunks_of count chunk_size ≡ some chunks)
      × Tiles chunk_size count 0 chunks
unfolding chunks_of
chunks_of-Tiles count chunk_size pos fits =
    chunk_loop-Tiles (count + 1) count 0 chunk_size pos fits (omega arith) (omega arith)
