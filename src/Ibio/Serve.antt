-- ===== src/Ibio/Serve.antt =====
-- examples/ibio_server.c, the switch of main: the handler that a message goes to by its tag, and what it
-- is given as the descriptor. The handler of a read runs in a thread of its own.
use libibtl.Base.{ℕ, ◌^◌, ◌<◌, ◌≡◌, ap, ◌∙◌, if◌then◌else◌, arith}
use libibtl.Base.Int.{ℤ, pos, eq_ℤ}
use libibtl.Ibio.{op_noop, op_open, op_write, op_write_begin, op_write_chunk, op_read, op_close}
use libibtl.Ibio.Tag.{serialize_tag, deserialize_tag}
use libibtl.Ibio.Tag.RoundTrip.{low_half, deserialize_tag-serialize_tag}

pub data Handler : Type 0 where
  sopen : Handler
  swrite : (fd : ℤ) → Handler
  swrite_begin : (fd : ℤ) → Handler
  swrite_chunk : (fd : ℤ) → Handler
  sread_async : (fd : ℤ) → Handler
  sclose : (fd : ℤ) → Handler
  usleep : Handler
  unknown : Handler

abbrev pub case : (op : ℤ) (label : ℕ) → Handler → Handler → Handler
case op label handler others = if eq_ℤ op (pos label) then handler else others

-- switch (op), without a default
unfoldable pub serve : (op fd : ℤ) → Handler
serve op fd = case op op_open Handler.sopen (
    case op op_write (Handler.swrite fd) (
      case op op_write_begin (Handler.swrite_begin fd) (
        case op op_write_chunk (Handler.swrite_chunk fd) (
          case op op_read (Handler.sread_async fd) (
            case op op_close (Handler.sclose fd)
              (case op op_noop Handler.usleep Handler.unknown))))))

unfoldable pub serve_tag : (tag : ℤ) → Handler
unfolding serve deserialize_tag
serve_tag tag = let (op, fd) = deserialize_tag tag in serve op fd

served :
    (op fd : ℕ)
    → op < 2 ^ 16
    → fd < 2 ^ 16
    → serve_tag (serialize_tag (pos op) (pos fd)) ≡ serve (pos op) (pos fd)
unfolding serve_tag
served op fd low high =
    let same_op : low_half (pos op) ≡ op = omega (arith, low) in
    let same_fd : low_half (pos fd) ≡ fd = omega (arith, high) in
    ap (λ p. serve p.0 p.1) (deserialize_tag-serialize_tag (pos op) (pos fd))
    ∙ ap (λ n. serve (pos n) (pos (low_half (pos fd)))) same_op
    ∙ ap (λ n. serve (pos op) (pos n)) same_fd

-- The tags that the calls of the client send lead to the handlers that are meant, each with the
-- client's descriptor where this is at most 65535.
pub serve_tag-serialize_tag :
    (fd : ℕ)
    → fd < 2 ^ 16
    → (serve_tag (serialize_tag (pos op_open) (pos 0)) ≡ Handler.sopen)
      × (serve_tag (serialize_tag (pos op_write) (pos fd)) ≡ Handler.swrite (pos fd))
      × (serve_tag (serialize_tag (pos op_write_begin) (pos fd)) ≡ Handler.swrite_begin (pos fd))
      × (serve_tag (serialize_tag (pos op_write_chunk) (pos fd)) ≡ Handler.swrite_chunk (pos fd))
      × (serve_tag (serialize_tag (pos op_read) (pos fd)) ≡ Handler.sread_async (pos fd))
      × (serve_tag (serialize_tag (pos op_close) (pos fd)) ≡ Handler.sclose (pos fd))
unfolding serve
serve_tag-serialize_tag fd small = (
  served op_open 0 (omega arith) (omega arith),
  served op_write fd (omega arith) small,
  served op_write_begin fd (omega arith) small,
  served op_write_chunk fd (omega arith) small,
  served op_read fd (omega arith) small,
  served op_close fd (omega arith) small,
)
