-- ===== src/Ibio/Tag/RoundTrip.antt =====
-- Tags survive the way from a client to the server.
use Prim.Native.Nat.{bit_and}
use libibtl.Base.{ℕ, ◌+◌, ◌-◌, ◌*◌, ◌/◌, ◌%◌, ◌^◌, ◌<◌, ◌≡◌, refl, ap, ◌∙◌, arith, suc}
use libibtl.Base.Bits.{bit_and-mask, bit_or-field}
use libibtl.Base.Int.{ℤ, pos, negsuc, to_int, IsInt}
use libibtl.Ibio.Tag.{
  op_mask, fd_mask, op_offset, fd_offset, bits, shift_right, serialize_tag, deserialize_tag,
}

-- the part of an `int` that a tag keeps
abbrev pub low_half : ℤ → ℕ
low_half a = bits a % 2 ^ 16

-- a tag is two halves of 16 bits
serialize_tag-halves :
    (fd op : ℤ) → serialize_tag fd op ≡ to_int (low_half op * 2 ^ 16 + low_half fd)
unfolding serialize_tag
serialize_tag-halves fd op =
    let high : bit_and (bits op) op_mask * 2 ^ op_offset % 2 ^ 32 ≡ low_half op * 2 ^ 16 =
      omega (arith, bit_and-mask 16 (bits op)) in
    let low : bit_and (bits fd) fd_mask * 2 ^ fd_offset % 2 ^ 32 ≡ low_half fd =
      omega (arith, bit_and-mask 16 (bits fd)) in
    rw (high, low) (ap to_int (bit_or-field 16 (low_half op) (low_half fd) (omega arith)))

shifted-low : (w : ℕ) → w < 2 ^ 32 → low_half (shift_right (to_int w) 0) ≡ w % 2 ^ 16
shifted-low w h = ground arith

shifted-high : (w : ℕ) → w < 2 ^ 32 → low_half (shift_right (to_int w) 16) ≡ w / 2 ^ 16
shifted-high w h = ground arith

-- Any two values of `int` come back from a tag as their low 16 bits, each in its place.
pub deserialize_tag-serialize_tag :
    (fd op : ℤ) → deserialize_tag (serialize_tag fd op) ≡ (pos (low_half fd), pos (low_half op))
unfolding deserialize_tag
deserialize_tag-serialize_tag fd op =
    let word = low_half op * 2 ^ 16 + low_half fd in
    let tag = to_int word in
    let fits : word < 2 ^ 32 = omega arith in
    let low : bit_and (bits (shift_right tag 0)) fd_mask ≡ low_half fd =
      bit_and-mask 16 (bits (shift_right tag 0)) ∙ shifted-low word fits ∙ omega arith in
    let high : bit_and (bits (shift_right tag 16)) op_mask ≡ low_half op =
      bit_and-mask 16 (bits (shift_right tag 16)) ∙ shifted-high word fits ∙ omega arith in
    rw (serialize_tag-halves fd op) (rw (low, high) refl)

shift_right-zero : (a : ℤ) → bits (shift_right a 0) ≡ bits a
shift_right-zero (pos n) = omega arith
shift_right-zero (negsuc n) = omega arith

bits-shift_right : (a : ℤ) → IsInt a → bits (shift_right a 16) % 2 ^ 16 ≡ bits a / 2 ^ 16
bits-shift_right (pos n) h = omega arith
bits-shift_right (negsuc n) h = omega arith

to_int-bits : (a : ℤ) → IsInt a → to_int (bits a) ≡ a
to_int-bits (pos n) h = ground arith
to_int-bits (negsuc n) h =
    let w : (2 ^ 64 - suc n) % 2 ^ 32 ≡ 2 ^ 32 - suc n = omega arith in rw w (ground arith)

-- Any tag is the one of the halves that are read from it.
pub serialize_tag-deserialize_tag :
    (tag : ℤ) → IsInt tag → let (fd, op) = deserialize_tag tag in serialize_tag fd op ≡ tag
unfolding deserialize_tag
serialize_tag-deserialize_tag tag h =
    let (fd, op) = deserialize_tag tag in
    let low : low_half fd ≡ low_half tag =
      omega (arith, bit_and-mask 16 (bits (shift_right tag 0)), shift_right-zero tag) in
    let high : low_half op ≡ bits tag / 2 ^ 16 =
      omega (arith, bit_and-mask 16 (bits (shift_right tag 16)), bits-shift_right tag h) in
    serialize_tag-halves fd op ∙ ap to_int (omega (arith, low, high)) ∙ to_int-bits tag h
