-- ===== src/Datatype/Copy.antt =====
-- What the copy loops write, byte by byte.
use libibtl.Base.{ℕ, zero, suc, ◌+◌, ◌-◌, ◌*◌, ◌≤◌, ◌<◌, ◌≡◌, refl, ◌≢◌, sym, ◌∙◌, arith}
use libibtl.Datatype.{Memory, memcpy, Cursor, copy_block, copy_blocks, copy_elements}

module _ (from : Memory) where
  pub memcpy_in :
      (source : ℕ) (to : Memory) (target n o : ℕ)
      → o < n
      → memcpy from source to target n (target + o) ≡ from (source + o)
  unfolding memcpy
  memcpy_in source to target n o h =
      let e : target + o - target ≡ o = omega arith in rw e (ground arith)

  pub memcpy_out :
      (source : ℕ) (to : Memory) (target n a : ℕ)
      → ((o : ℕ) → o < n → a ≢ target + o)
      → memcpy from source to target n a ≡ to a
  unfolding memcpy
  memcpy_out source to target n a out = ground (arith, out (a - target))

module _ (from : Memory) (len ts ss : ℕ) where
  rounds-eq :
      (n m : ℕ) (c : Cursor)
      → n ≡ m
      → copy_blocks from len ts ss n c ≡ copy_blocks from len ts ss m c
  rounds-eq n m c e = rw e

  -- the loops are one loop over all the blocks
  copy_blocks-add :
      (n m : ℕ) (c : Cursor)
      → copy_blocks from len ts ss (n + m) c
        ≡ copy_blocks from len ts ss m (copy_blocks from len ts ss n c)
  unfolding copy_blocks
  copy_blocks-add zero m c = rounds-eq (zero + m) m c (omega arith)
  copy_blocks-add (suc n) m c =
      rounds-eq (suc n + m) (suc (n + m)) c (omega arith)
      ∙ copy_blocks-add n m (copy_block from len ts ss c)

  pub copy_elements-blocks :
      (rounds n : ℕ) (c : Cursor)
      → copy_elements from len ts ss rounds n c ≡ copy_blocks from len ts ss (n * rounds) c
  unfolding copy_elements copy_blocks
  copy_elements-blocks rounds zero c = rounds-eq 0 (0 * rounds) c (omega arith)
  copy_elements-blocks rounds (suc n) c =
      copy_elements-blocks rounds n _
      ∙ sym (copy_blocks-add rounds (n * rounds) c)
      ∙ rounds-eq (rounds + n * rounds) (suc n * rounds) c (omega arith)

  -- nothing below the target is written
  copy_blocks-below :
      (n a : ℕ) (c : Cursor) → a < c.target → (copy_blocks from len ts ss n c).memory a ≡ c.memory a
  unfolding copy_blocks copy_block memcpy
  copy_blocks-below zero a c h = refl
  copy_blocks-below (suc n) a c h =
      copy_blocks-below n a (copy_block from len ts ss c) (omega arith) ∙ ground arith

  -- byte `o` of block `k` arrives, where the target's blocks do not overlap
  pub copy_blocks-at :
      (n k o : ℕ) (c : Cursor)
      → k < n
      → o < len
      → len ≤ ts
      → (copy_blocks from len ts ss n c).memory (c.target + k * ts + o)
        ≡ from (c.source + k * ss + o)
  unfolding copy_blocks copy_block
  copy_blocks-at zero k o c h i d = absurd (omega arith)
  copy_blocks-at (suc n) zero o c h i d =
      let e : c.target + 0 * ts + o ≡ c.target + o = omega arith in
      let e' : c.source + 0 * ss + o ≡ c.source + o = omega arith in
      rw (e, e')
        (copy_blocks-below n (c.target + o) (copy_block from len ts ss c) (omega arith)
          ∙ memcpy_in from c.source c.memory c.target len o i)
  copy_blocks-at (suc n) (suc k) o c h i d =
      let e : c.target + suc k * ts + o ≡ c.target + ts + k * ts + o = omega arith in
      let e' : c.source + suc k * ss + o ≡ c.source + ss + k * ss + o = omega arith in
      rw (e, e') (copy_blocks-at n k o (copy_block from len ts ss c) (omega arith) i d)

  -- a byte of no block is not written
  pub copy_blocks-out :
      (n a : ℕ) (c : Cursor)
      → ((k o : ℕ) → k < n → o < len → a ≢ c.target + k * ts + o)
      → (copy_blocks from len ts ss n c).memory a ≡ c.memory a
  unfolding copy_blocks copy_block
  copy_blocks-out zero a c out = refl
  copy_blocks-out (suc n) a c out =
      copy_blocks-out n a (copy_block from len ts ss c)
        (λ k o h i e. out (suc k) o (omega arith) i (omega arith))
      ∙ memcpy_out from c.source c.memory c.target len a
          (λ o i e. out 0 o (omega arith) i (omega arith))

  -- the target pointer is left behind the last block
  pub copy_blocks-target :
      (n : ℕ) (c : Cursor) → (copy_blocks from len ts ss n c).target ≡ c.target + n * ts
  unfolding copy_blocks copy_block
  copy_blocks-target zero c = omega arith
  copy_blocks-target (suc n) c = omega (arith, copy_blocks-target n (copy_block from len ts ss c))
