-- ===== src/Ibio/Reading.antt =====
-- A read from end to end: the calls of ibvio_sread in examples/ibio_server.c on a file, and those of
-- ibtl_read in examples/ibio_client.c on the messages that they send.
pub mod Messages
pub mod Shift
pub mod Copied
use libibtl.Base.{ℕ, ◌+◌, ◌-◌, Option, none, some, List, [], ◌∷◌, min}
use libibtl.Datatype.{Memory, memcpy}
use libibtl.Ibio.{Payload, bytes, request, Call, connect, send, recv_open, recv_bytes}
use libibtl.Ibio.Server.{Event}

-- What the calls of the server send. A read() of a file with `len` bytes takes what it asks for, as far
-- as the file goes, and moves the offset on. A message holds the cache as it is when it is sent: what
-- is read before the send has been waited for goes behind it.
unfoldable pub serve_events :
    (file : Memory) (len : ℕ) → List Event → (offset : ℕ) (cache : Memory) → List Payload
serve_events file len [] offset cache = []
serve_events file len (Event.read_file at size ∷ events) offset cache =
    let n = min size (len - offset) in
    serve_events file len events (offset + n) (memcpy file offset cache at n)
serve_events file len (Event.isend at size ∷ events) offset cache =
    bytes cache at size ∷ serve_events file len events offset cache
serve_events file len (event ∷ events) offset cache = serve_events file len events offset cache

-- a receive of bytes, with the message that comes next
abbrev pub receive_bytes : (addr : ℕ) → Payload → Memory → Memory
receive_bytes addr (bytes m at size) memory = memcpy m at memory addr size
receive_bytes addr (request iopen) memory = memory

-- What the calls of the client make of its memory; a receive without a message waits without end.
unfoldable pub make_client_calls : List Call → List Payload → Memory → Option Memory
make_client_calls [] messages memory = some memory
make_client_calls (recv_bytes peer tag addr size ∷ calls) (message ∷ messages) memory =
    make_client_calls calls messages (receive_bytes addr message memory)
make_client_calls (recv_bytes peer tag addr size ∷ calls) [] memory = none
make_client_calls (recv_open peer tag ∷ calls) [] memory = none
make_client_calls (recv_open peer tag ∷ calls) (message ∷ messages) memory =
    make_client_calls calls messages memory
make_client_calls (send peer tag payload ∷ calls) messages memory =
    make_client_calls calls messages memory
make_client_calls (connect peer hostname ∷ calls) messages memory =
    make_client_calls calls messages memory
