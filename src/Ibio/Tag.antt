-- ===== src/Ibio/Tag.antt =====
-- The tag of a message: examples/ibio_common.c.
pub mod RoundTrip
use Prim.Native.Nat.{bit_and, bit_or}
use libibtl.Base.{ℕ, ◌*◌, ◌/◌, ◌%◌, ◌^◌}
use libibtl.Base.Int.{ℤ, pos, negsuc, to_u64, to_int}

-- IBVIO_OP_MASK and IBVIO_FD_MASK, IBVIO_OP_OFFSET and IBVIO_FD_OFFSET
abbrev pub op_mask : ℕ
op_mask = 0xffff

abbrev pub fd_mask : ℕ
fd_mask = 0xffff

abbrev pub op_offset : ℕ
op_offset = 16

abbrev pub fd_offset : ℕ
fd_offset = 0

-- the 32 bits of an `int`, on which `&` and `|` work
abbrev pub bits : ℤ → ℕ
bits a = to_u64 a % 2 ^ 32

-- `>>` of an `int`, which keeps the sign
abbrev pub shift_right : ℤ → ℕ → ℤ
shift_right (pos n) k = pos (n / 2 ^ k)
shift_right (negsuc n) k = negsuc (n / 2 ^ k)

-- ibvio_serialize_tag
unfoldable pub serialize_tag : (fd op : ℤ) → ℤ
serialize_tag fd op = to_int (
    bit_or (bit_and (bits op) op_mask * 2 ^ op_offset % 2 ^ 32)
      (bit_and (bits fd) fd_mask * 2 ^ fd_offset % 2 ^ 32))

-- ibvio_deserialize_tag: the descriptor and the operation
unfoldable pub deserialize_tag : (tag : ℤ) → ℤ × ℤ
deserialize_tag tag = (
  pos (bit_and (bits (shift_right tag fd_offset)) fd_mask),
  pos (bit_and (bits (shift_right tag op_offset)) op_mask),
)
