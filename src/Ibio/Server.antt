-- ===== src/Ibio/Server.antt =====
-- examples/ibio_server.c: the handlers of the requests. Each is given the structure that it receives,
-- and yields the calls that it makes, in their order, and the server's table afterwards. A `write` or
-- a `read` that fails ends the process, and its result is not looked at otherwise. The calls on the
-- mutex of an entry, and the clock, are left out.
pub mod Traces
pub mod Reads
use libibtl.Base.{
  ℕ, zero, suc, ◌+◌, ◌-◌, ◌*◌, ◌^◌, Bool, true, false, Option, none, some, List, [], ◌∷◌, ◌++◌, ltb,
  ◌==◌, if◌then◌else◌,
}
use libibtl.Base.Int.{ℤ, pos, negsuc, to_u64}
use libibtl.Datatype.{Memory}
use libibtl.ProcMan.{read_at, write_at}
use libibtl.Ibio.{
  op_noop, op_open, op_write, op_write_begin, op_write_chunk, op_read, op_close, ibvio_chunk_size,
  IbvioOpen,
}
use libibtl.Ibio.Tag.{deserialize_tag}
use libibtl.Ibio.Chunks.{◌>>=◌, add_int, clip}

-- struct ibvio_sopen_info and its struct ibvio_sfile_info; `cache` is NULL where there is none
pub record OpenInfo : Type 0 where
  pub fd : ℤ
  pub write_count : ℕ
  pub current_write_count : ℕ
  pub current_recv_size : ℕ
  pub cache : Option Memory

-- What a handler does: it posts a receive of the structure, posts a receive into the cache or a send
-- from it, waits for the last of these, writes to the file or reads from it, synchronises it, starts
-- a thread, and replies with the structure.
pub data Event : Type 0 where
  recv_open : Event
  irecv : (at size : ℕ) → Event
  isend : (at size : ℕ) → Event
  wait : Event
  write_file : (at size : ℕ) → Event
  read_file : (at size : ℕ) → Event
  fsync : Event
  run_thread : Event
  reply : IbvioOpen → Event
  close_file : Event

abbrev pub Table : Type 0
Table = List OpenInfo

-- ibvio_sopen: `opened` is the descriptor that open() gives, and `fresh` what malloc leaves in the
-- cache. A descriptor outside the table is undefined.
unfoldable pub ibvio_sopen :
    (opened : ℤ) (fresh : Memory) (iopen : IbvioOpen) → Table → Option (List Event × Table)
unfolding write_at
ibvio_sopen opened fresh iopen table = do
  table' ← write_at table opened (record {
    fd = opened;
    write_count = 0;
    current_write_count = 0;
    current_recv_size = 0;
    cache = some fresh;
  })
  some (recv_open ∷ reply (record iopen { fd = opened }) ∷ [], table')

-- The loop of ibvio_swrite: `write_size` and `write_chunk_size` say what to write next, and are handed
-- on to the code behind the loop.
unfoldable pub swrite_loop :
    (rounds count current chunk_size write_size write_chunk_size : ℕ) → Option (List Event × ℕ × ℕ)
unfolding clip
swrite_loop zero count current chunk_size write_size write_chunk_size = none
swrite_loop (suc rounds) count current chunk_size write_size write_chunk_size =
    let first = (do
      size ← clip count current chunk_size
      next ← add_int current size
      (events, ws, wcs) ← swrite_loop rounds count next size write_size size
      some (irecv current size ∷ wait ∷ events, ws, wcs)) in
    let later = (do
      size ← clip count current chunk_size
      written ← add_int write_size write_chunk_size
      next ← add_int current size
      (events, ws, wcs) ← swrite_loop rounds count next size written size
      some
          (irecv current size ∷ write_file write_size write_chunk_size ∷ wait ∷ events, ws, wcs)) in
    if ltb current count
    then (if ltb 0 current then later else first)
    else some ([], write_size, write_chunk_size)

-- ibvio_swrite for a count that is not negative; `write_size` and `write_chunk_size` start with what
-- the stack held. Some write is from `write_size` on, and one from in front of the cache is undefined; the
-- size of a write is a `size_t`.
unfoldable pub ibvio_swrite :
    (write_size write_chunk_size : ℤ) (count : ℕ) (iopen : IbvioOpen) → Option (List Event)
unfolding swrite_loop
ibvio_swrite (pos write_size) write_chunk_size count iopen = do
  (events, ws, wcs) ←
      swrite_loop (count + 1) count 0 ibvio_chunk_size write_size (to_u64 write_chunk_size)
  some (recv_open ∷ (events ++ write_file ws wcs ∷ fsync ∷ reply iopen ∷ []))
ibvio_swrite (negsuc n) write_chunk_size count iopen = none

-- ibvio_swrite_begin
unfoldable pub ibvio_swrite_begin :
    (fd : ℤ) (iopen : IbvioOpen) → Table → Option (List Event × Table)
unfolding read_at write_at
ibvio_swrite_begin fd iopen table = do
  info ← read_at table fd
  table' ← write_at table fd (record info {
    write_count = to_u64 iopen.count;
    current_recv_size = 0;
    current_write_count = 0;
  })
  some (recv_open ∷ [], table')

-- The loop of ibvio_sread, which reads ahead: `read_size` bytes are in the cache.
unfoldable pub sread_loop : (rounds count current chunk_size read_size : ℕ) → Option (List Event)
unfolding clip
sread_loop zero count current chunk_size read_size = none
sread_loop (suc rounds) count current chunk_size read_size =
    let ahead = (do
      size ← clip count current chunk_size
      next ← add_int current size
      read ← add_int read_size ibvio_chunk_size
      events ← sread_loop rounds count next size read
      some (isend current size ∷ read_file read_size ibvio_chunk_size ∷ wait ∷ events)) in
    let all_read = (do
      size ← clip count current chunk_size
      next ← add_int current size
      events ← sread_loop rounds count next size read_size
      some (isend current size ∷ wait ∷ events)) in
    if ltb current count then (if ltb read_size count then ahead else all_read) else some []

-- ibvio_sread for a count that is not negative
unfoldable pub ibvio_sread : (count : ℕ) → Option (List Event)
unfolding sread_loop
ibvio_sread count = do
  events ← sread_loop (count + 1) count 0 ibvio_chunk_size ibvio_chunk_size
  some (recv_open ∷ read_file 0 ibvio_chunk_size ∷ events)

-- the counters of an entry, zeroed
abbrev pub zeroed : OpenInfo → OpenInfo
zeroed info = record info {
  fd = pos 0;
  write_count = 0;
  current_write_count = 0;
  current_recv_size = 0;
}

-- What memset does to the entry behind that of `fd`: with 64-bit pointers and the sizes of glibc, `struct
-- ibvio_open` has 276 bytes and an entry 176, so that the first 100 bytes of the next are zeroed, which
-- its counters lie in. A next entry outside the table is undefined.
unfoldable pub zero_next : (fd : ℤ) → Table → Option Table
unfolding read_at write_at
zero_next (pos i) table = do
  next ← read_at table (pos (i + 1))
  write_at table (pos (i + 1)) (zeroed next)
zero_next (negsuc i) table = none

-- ibvio_sclose: `closed` is what close() returns. On success the entry is reset, and memset zeroes as
-- many bytes from its start on as `struct ibvio_open` has.
unfoldable pub ibvio_sclose :
    (closed : ℤ) (fd : ℤ) (iopen : IbvioOpen) → Table → Option (List Event × Table)
unfolding read_at write_at zero_next
ibvio_sclose closed fd iopen table =
    let events = recv_open ∷ close_file ∷ reply (record iopen { stat = closed }) ∷ [] in
    elim closed [
      | pos zero ↦ do
        info ← read_at table fd
        reset ← write_at table fd (record (zeroed info) { cache = none })
        table' ← zero_next fd reset
        some (events, table')
      | _ ↦ some (events, table)
    ]
