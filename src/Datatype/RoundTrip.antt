-- ===== src/Datatype/RoundTrip.antt =====
-- A strided message through the eager buffer (src/fdmi.c, src/fdmi_datatype.c).
use libibtl.Base.{ℕ, ◌+◌, ◌*◌, ◌<◌, ◌≡◌, ◌≢◌, ◌==◌, false, ◌∙◌, arith}
use libibtl.Datatype.{Datatype, Memory, scatter, gather, datatype_size, type_vector}
use libibtl.Datatype.Copy.{copy_elements-blocks, copy_blocks-out, copy_blocks-target}

-- the bytes of one block, and from one block to the next
abbrev pub block : Datatype → ℕ
block d = d.blength * d.size

abbrev pub step : Datatype → ℕ
step d = d.stride * d.size

module _ (d : Datatype) (n : ℕ) (strided : d.count ≢ 1) (from to : Memory)
    (eager_buff recv_buff : ℕ) where
  not_one : (d.count == 1) ≡ false
  not_one = ground arith

  -- A byte of memory that belongs to no block of a strided message in the receive buffer stays as it
  -- was.
  pub scatter_out :
      (a : ℕ)
      → ((k o : ℕ) → k < n * d.count → o < block d → a ≢ recv_buff + k * step d + o)
      → scatter from eager_buff d n to recv_buff a ≡ to a
  unfolding scatter
  scatter_out a out =
      rw (not_one, copy_elements-blocks)
        (copy_blocks-out from (block d) (step d) (block d) (n * d.count) a _ out)

-- The gather loop leaves the pointer to the eager buffer behind all the data that it wrote.
pub gather-target :
    (from : Memory) (send_buff : ℕ) (d : Datatype) (n : ℕ) (eager : Memory) (eager_buff : ℕ)
    → (gather from send_buff d n eager eager_buff).target ≡ eager_buff + n * datatype_size d
unfolding gather datatype_size
gather-target from send_buff d n eager eager_buff =
    rw copy_elements-blocks
      (copy_blocks-target from (block d) (block d) (step d) (n * d.count) _ ∙ omega arith)

-- fdmi_type_vector describes as much data as `count` blocks of the old type, in both of its cases
pub datatype_size-type_vector :
    (count blocklength stride : ℕ) (old : Datatype)
    → datatype_size (type_vector count blocklength stride old) ≡ count * blocklength * old.size
unfolding datatype_size type_vector
datatype_size-type_vector count blocklength stride old = ground arith
