-- ===== src/Ibio/Dump.antt =====
-- examples/ibio_server.c: simple_write and dump_ckpt, which write a buffer to a file by as many calls of
-- write() as it takes. `write at size` is what a call returns that is given the bytes from `at` on.
use libibtl.Base.{
  ℕ, zero, suc, ◌+◌, ◌-◌, ◌%◌, ◌^◌, ◌≤◌, ◌<◌, ◌≡◌, refl, ap, ◌∙◌, true, List, [], ◌∷◌, arith, leb,
  ltb, if◌then◌else◌, Bool-cases, ◌⊎◌, inl, inr,
}
use libibtl.Base.Int.{ℤ, pos, negsuc, to_int}
use libibtl.Ibio.Chunks.{Chunk}

-- exit(1), or the bytes written by each call and `n_write_sum` at the end; `running` where the rounds
-- are used up, and `undefined` where write() returns what it never does, a value below -1
pub data Outcome : Type 0 where
  exit : Outcome
  done : List Chunk → (n_write_sum : ℕ) → Outcome
  running : Outcome
  undefined : Outcome

abbrev pub wrote : Chunk → Outcome → Outcome
wrote chunk (done chunks n_write_sum) = done (chunk ∷ chunks) n_write_sum
wrote chunk outcome = outcome

-- what the loop does with the result of write()
unfoldable pub after_write : (result : ℤ) (size n_write_sum : ℕ) (rest : ℕ → Outcome) → Outcome
after_write (negsuc zero) size n_write_sum rest = exit
after_write (negsuc (suc n)) size n_write_sum rest = undefined
after_write (pos n) size n_write_sum rest =
    let sum = n_write_sum + n in
    let last = done ((n_write_sum, n) ∷ []) sum in
    let more = if ltb 0 n then wrote (n_write_sum, n) (rest sum) else last in
    if leb size sum then last else more

-- the loop, for a size that is not negative
unfoldable pub dump_loop : (write : ℕ → ℕ → ℤ) (rounds size n_write_sum : ℕ) → Outcome
unfolding after_write
dump_loop write zero size n_write_sum = running
dump_loop write (suc rounds) size n_write_sum =
    after_write (write n_write_sum (size - n_write_sum)) size n_write_sum
      (dump_loop write rounds size)

-- The loop of simple_write, on an `int`. Each call but the last writes a byte at least. Where the size is
-- negative, write() gets it as a `size_t`, and the loop ends behind the first call.
unfoldable pub dump_size : (write : ℕ → ℕ → ℤ) (size : ℤ) → Outcome
unfolding dump_loop after_write
dump_size write (pos size) = dump_loop write (size + 1) size 0
dump_size write (negsuc n) = after_write (write 0 (2 ^ 64 - suc n)) 0 0 (λ sum. running)

-- dump_ckpt, whose `cwa_size` is a `uint64_t`, cut to an `int`; `fd` is what open() returns
unfoldable pub dump_ckpt : (fd : ℤ) (write : ℕ → ℕ → ℤ) (cwa_size : ℕ) → Outcome
unfolding dump_size
dump_ckpt (pos (suc fd)) write cwa_size = dump_size write (to_int cwa_size)
dump_ckpt fd write cwa_size = exit

-- the calls write the bytes from `current` to `size`, in order
abbrev pub Covers : (size current : ℕ) → List Chunk → Type 0
Covers size current [] = current ≡ size
Covers size current ((at, n) ∷ chunks) = (at ≡ current) × Covers size (current + n) chunks

-- what write() promises where it does not fail: of a byte or more it writes one at least
abbrev pub Advances : (ℕ → ℕ → ℤ) → Type 0
Advances write = (at size : ℕ) → 0 < size → (n : ℕ) × (write at size ≡ pos n) × (0 < n) × (n ≤ size)

dump_loop-Covers :
    (write : ℕ → ℕ → ℤ)
    → Advances write
    → (rounds size current : ℕ) → current < size
    → size ≤ rounds + current
    → (chunks : List Chunk) × (dump_loop write rounds size current ≡ done chunks size)
      × Covers size current chunks
unfolding dump_loop
dump_loop-Covers write advances zero size current more fuel = absurd (omega (arith, more, fuel))
dump_loop-Covers write advances (suc rounds) size current more fuel =
    let (n, e, pos_n, small) = advances current (size - current) (omega (arith, more)) in
    elim (Bool-cases (leb size (current + n))) [
      | inl last ↦
          let end : current + n ≡ size = ground (arith, last, small, more) in
          ((current, n) ∷ [], rw (e, last) (ap (done ((current, n) ∷ [])) end), (refl, end))
      | inr inside ↦
          let (chunks, run, covers) =
            dump_loop-Covers write advances rounds size (current + n) (ground (arith, inside))
              (omega (arith, fuel, pos_n)) in
          let some_bytes : ltb 0 n ≡ true = ground (arith, pos_n) in
          ((current, n) ∷ chunks, rw (e, inside, some_bytes, run) refl, (refl, covers))
    ]

small_size : (size : ℕ) → size < 2 ^ 31 → to_int size ≡ pos size
small_size size h =
    let whole : size % 2 ^ 32 ≡ size = omega (arith, h) in
    let inside : ltb size (2 ^ 31) ≡ true = ground (arith, h) in rw (whole, inside) refl

-- Where open() succeeds with a descriptor above 0 and each write() writes at least a byte of what it is
-- given, dump_ckpt writes all bytes of a buffer that is not empty and is shorter than 2 GiB, in order and
-- none twice, however few of them a single call takes.
pub dump_ckpt-Covers :
    (fd : ℕ) (write : ℕ → ℕ → ℤ) (size : ℕ)
    → Advances write
    → 0 < fd
    → 0 < size
    → size < 2 ^ 31
    → (chunks : List Chunk) × (dump_ckpt (pos fd) write size ≡ done chunks size)
      × Covers size 0 chunks
unfolding dump_ckpt dump_size
dump_ckpt-Covers zero write size advances opened more small = absurd (omega (arith, opened))
dump_ckpt-Covers (suc fd) write size advances opened more small =
    rw (small_size size small)
      (dump_loop-Covers write advances (size + 1) size 0 more (omega arith))

-- what write() returns: -1, or at most what it is given
abbrev pub Sane : (ℕ → ℕ → ℤ) → Type 0
Sane write =
    (at size : ℕ) → (write at size ≡ negsuc 0) ⊎ ((n : ℕ) × (write at size ≡ pos n) × (n ≤ size))

-- calls that went on from `current` to `upto`, each asked for all that was left of `size`, with what
-- write() returned
abbrev pub Made : (write : ℕ → ℕ → ℤ) (size current upto : ℕ) → List Chunk → Type 0
Made write size current upto [] = current ≡ upto
Made write size current upto ((at, n) ∷ chunks) =
    (at ≡ current) × (write at (size - at) ≡ pos n) × Made write size (current + n) upto chunks

-- The loop ends: by exit(1) where the next of its calls failed, and otherwise behind calls up to
-- `n_write_sum`, which is all, or is where write() wrote no byte.
abbrev pub Ends : (write : ℕ → ℕ → ℤ) (size current : ℕ) → Outcome → Type 0
Ends write size current exit =
    (chunks : List Chunk) × (at : ℕ) × Made write size current at chunks
    × (write at (size - at) ≡ negsuc 0)
Ends write size current (done chunks n_write_sum) =
    Made write size current n_write_sum chunks
    × (n_write_sum ≤ size)
    × ((n_write_sum ≡ size) ⊎ (write n_write_sum (size - n_write_sum) ≡ pos 0))
Ends write size current running = ⊥
Ends write size current undefined = ⊥

wrote-Ends :
    (write : ℕ → ℕ → ℤ) (size current n : ℕ) (rest : Outcome)
    → write current (size - current) ≡ pos n
    → Ends write size (current + n) rest
    → Ends write size current (wrote (current, n) rest)
wrote-Ends write size current n exit e (chunks, at, made, failed) =
    ((current, n) ∷ chunks, at, (refl, e, made), failed)
wrote-Ends write size current n (done chunks sum) e (made, small, end) =
    ((refl, e, made), small, end)
wrote-Ends write size current n running e ends = ends
wrote-Ends write size current n undefined e ends = ends

dump_loop-Ends :
    (write : ℕ → ℕ → ℤ)
    → Sane write
    → (rounds size current : ℕ) → current ≤ size
    → size < rounds + current
    → Ends write size current (dump_loop write rounds size current)
unfolding dump_loop after_write
dump_loop-Ends write sane zero size current h fuel = absurd (omega (arith, h, fuel))
dump_loop-Ends write sane (suc rounds) size current h fuel = elim (sane current (size - current)) [
  | inl failed ↦ rw failed ([], current, refl, failed)
  | inr (n, e, small) ↦ rw e (elim (Bool-cases (leb size (current + n))) [
    | inl last ↦
        let end : current + n ≡ size = ground (arith, last, small, h) in
        rw last ((refl, e, refl), omega (arith, end), inl end)
    | inr inside ↦ elim (Bool-cases (ltb 0 n)) [
      | inl more ↦
          rw (inside, more)
            (wrote-Ends write size current n _ e (
              dump_loop-Ends write sane rounds size (current + n) (omega (arith, small, h))
                (ground (arith, fuel, more))))
      | inr none_written ↦
          let zero_bytes : n ≡ 0 = ground (arith, none_written) in
          let stays : current + n ≡ current = omega (arith, zero_bytes) in
          let last : write (current + n) (size - (current + n)) ≡ pos 0 =
            rw stays (e ∙ ap pos zero_bytes) in
          rw (inside, none_written) ((refl, e, refl), omega (arith, small, h), inr last)
    ]
  ])
]

-- Whatever write() does within its contract, short writes and failures included, dump_ckpt ends on a
-- descriptor above 0 and a buffer shorter than 2 GiB. Each of its calls goes on where the one before
-- ended, with all that is left. It ends by exit(1) where the next call failed, or behind its last call,
-- and then it has written all bytes, or the call at the end of what it has written wrote none.
pub dump_ckpt-Ends :
    (fd : ℕ) (write : ℕ → ℕ → ℤ) (size : ℕ)
    → Sane write
    → 0 < fd
    → size < 2 ^ 31
    → Ends write size 0 (dump_ckpt (pos fd) write size)
unfolding dump_ckpt dump_size
dump_ckpt-Ends zero write size sane opened small = absurd (omega (arith, opened))
dump_ckpt-Ends (suc fd) write size sane opened small =
    rw (small_size size small)
      (dump_loop-Ends write sane (size + 1) size 0 (omega arith) (omega arith))
