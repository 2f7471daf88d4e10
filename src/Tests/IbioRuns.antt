-- ===== src/Tests/IbioRuns.antt =====
-- The checkpoint input and output of examples: a name is opened, three bytes are written in a chunk, and
-- the handlers of the server run on a write and a read of two chunks.
use libibtl.Base.{inr, ℕ, ◌+◌, ◌*◌, ◌≤◌, ◌≡◌, refl, some, List, [], ◌∷◌, ◌++◌, arith, set}
use libibtl.Base.Int.{ℤ, pos, negsuc}
use libibtl.Datatype.{Memory, memcpy}
use libibtl.Engine.{any_tag}
use libibtl.ProcMan.{read_at, write_at}
use libibtl.Ibio.{
  op_open, op_write, op_write_begin, op_write_chunk, op_read, op_close, ibvio_chunk_size, IbvioOpen,
  bytes, request, Call, connect, send, recv_open,
}
use libibtl.Ibio.Tag.{serialize_tag, deserialize_tag}
use libibtl.Ibio.Tag.RoundTrip.{low_half, deserialize_tag-serialize_tag}
use libibtl.Ibio.Chunks.{Chunk, Tiles, chunks_of, chunks_of-Tiles}
use libibtl.Ibio.Name.{strtok}
use libibtl.Ibio.Client.{Client, send_chunks, ibtl_open, ibtl_write}
use libibtl.Ibio.Client.Hosts.{AllWith, ibtl_open-append, ibtl_open-write}
use libibtl.Ibio.Server.{OpenInfo, Event, Table, ibvio_swrite_begin, ibvio_swrite, ibvio_sread}
use libibtl.Ibio.Server.Reads.{ReadFirst, dispatched, ibvio_sread-ReadFirst}
use libibtl.Ibio.Server.Traces.{received, written, shift, InOrder, ibvio_swrite-written}
use libibtl.Ibio.Serve.{Handler, serve_tag, serve_tag-serialize_tag}
use libibtl.Ibio.Dump.{
  Sane, Ends, dump_ckpt-Ends, Advances, Covers, done, dump_ckpt, dump_ckpt-Covers,
}
use libibtl.Ibio.Session.{
  Phase, Session, chunk, thread, reply, Steps, start, later, sent, begin, ibvio_swrite_chunk,
  ibvio_swrite_chunk_thread,
}
use libibtl.Ibio.Session.Invariant.{Holds}
use libibtl.Ibio.Session.Write.{write_chunks-prefix, write_chunks-replied, write_chunks-reply}

abbrev iopen : IbvioOpen
iopen = record { fd = pos 4; stat = pos 0; count = pos 3; path = []; flags = pos 1; mode = pos 0 }

-- "h" and "/a"
abbrev host : List ℕ
host = 104 ∷ []

abbrev path : List ℕ
path = 47 ∷ 97 ∷ []

abbrev client : Client
client = record { host_ids = pos 0 ∷ pos 0 ∷ pos 7 ∷ pos 0 ∷ pos 9 ∷ []; next_host_id = 2 }

abbrev opened_client : Client
opened_client = record { host_ids = pos 0 ∷ pos 0 ∷ pos 7 ∷ pos 0 ∷ pos 2 ∷ []; next_host_id = 3 }

abbrev opening : List Call
opening =
    connect (pos 2) host
    ∷ send (pos 2) (pos 1) (request (record iopen { path = path }))
    ∷ recv_open (pos 2) any_tag
    ∷ []

opened :
    ibtl_open client (host ++ 58 ∷ path) (pos 1) (pos 0) iopen iopen
    ≡ some (opening, pos 4, opened_client)
unfolding ibtl_open serialize_tag write_at strtok
opened = refl

abbrev bytes_of : Memory
bytes_of a = a * 10

abbrev calls : List Call
calls =
    send (pos 2) (pos 0x40003) (request iopen)
    ∷ send (pos 2) (pos 0x40004) (bytes bytes_of 100 3)
    ∷ recv_open (pos 2) any_tag
    ∷ []

ran : ibtl_write opened_client (pos 4) bytes_of 100 3 iopen iopen ≡ some (calls, pos 0)
unfolding ibtl_write serialize_tag read_at chunks_of send_chunks
ran = refl

-- the entry of descriptor 4 after ibvio_sopen and after ibvio_swrite_begin
abbrev fresh : Memory
fresh a = 0

abbrev entry : OpenInfo
entry = record {
  fd = pos 4;
  write_count = 0;
  current_write_count = 0;
  current_recv_size = 0;
  cache = some fresh;
}

abbrev begun_entry : OpenInfo
begun_entry = record entry { write_count = 3 }

abbrev table : OpenInfo → Table
table info = entry ∷ entry ∷ entry ∷ entry ∷ info ∷ []

begun :
    ibvio_swrite_begin (pos 4) (record iopen { count = pos 3 }) (table entry)
    ≡ some (Event.recv_open ∷ [], table begun_entry)
unfolding ibvio_swrite_begin read_at write_at
begun = refl

entered : read_at (table begun_entry) (pos 4) ≡ some begun_entry
unfolding read_at
entered = refl

at_start : Session
unfolding begin sent
at_start = begin begun_entry 10 fresh calls

after_chunk : Session
unfolding at_start begin sent
after_chunk = record at_start {
  info = record begun_entry { current_recv_size = 3; cache = some (memcpy bytes_of 100 fresh 0 3) };
  inbox = [];
  threads = 1;
  phase = Phase.waiting;
}

written_file : Session
unfolding after_chunk
written_file = record after_chunk {
  info = record (after_chunk.info) { current_write_count = 3 };
  threads = 0;
  file = record { position = 13; content = memcpy (memcpy bytes_of 100 fresh 0 3) 0 fresh 10 3 };
}

answered : Session
answered = record written_file { phase = Phase.replied }

run : Steps some at_start answered
unfolding at_start after_chunk written_file answered begin sent ibvio_swrite_chunk
    ibvio_swrite_chunk_thread
run = later (later (later start (chunk refl refl refl)) (thread refl refl)) (reply refl refl)

answered_phase : answered.phase ≡ Phase.replied
unfolding answered
answered_phase = refl

write_chunks-prefix_example :
    (n : ℕ) × (answered.file.position ≡ 10 + n)
    × (n ≤ answered.info.current_recv_size)
    × (answered.info.current_recv_size ≤ 3)
    × Holds bytes_of 100 n (λ i. answered.file.content (10 + i))
unfolding at_start
write_chunks-prefix_example =
    write_chunks-prefix opened_client (pos 4) bytes_of 100 3 iopen iopen calls (pos 0) ran (pos 4)
      (table entry) (table begun_entry) (Event.recv_open ∷ []) begun begun_entry entered fresh refl
      (omega arith) (omega arith) some (λ n. refl) 10 fresh run

write_chunks-replied_example :
    (answered.file.position ≡ 10 + 3) × Holds bytes_of 100 3 (λ i. answered.file.content (10 + i))
unfolding at_start
write_chunks-replied_example =
    write_chunks-replied opened_client (pos 4) bytes_of 100 3 iopen iopen calls (pos 0) ran (pos 4)
      (table entry) (table begun_entry) (Event.recv_open ∷ []) begun begun_entry entered fresh refl
      (omega arith) (omega arith) some (λ n. refl) 10 fresh run answered_phase

write_chunks-reply_example : (t : Session) × Steps some at_start t × (t.phase ≡ Phase.replied)
unfolding at_start
write_chunks-reply_example =
    write_chunks-reply opened_client (pos 4) bytes_of 100 3 iopen iopen calls (pos 0) ran (pos 4)
      (table entry) (table begun_entry) (Event.recv_open ∷ []) begun begun_entry entered fresh refl
      (omega arith) (omega arith) some (λ n. refl) 10 fresh start

ibvio_swrite-written_example :
    (events : List Event) × (chunks : List Chunk) × (ibvio_swrite
        (pos 0)
        (negsuc 4)
        (ibvio_chunk_size + 1)
        iopen
      ≡ some events)
    × Tiles ibvio_chunk_size (ibvio_chunk_size + 1) 0 chunks
    × (received events ≡ chunks)
    × (written events ≡ shift 0 chunks)
    × InOrder 0 0 0 events
ibvio_swrite-written_example =
    ibvio_swrite-written 0 (negsuc 4) (ibvio_chunk_size + 1) iopen (omega arith) (omega arith)

ibvio_sread-ReadFirst_example :
    (events : List Event) × (chunks : List Chunk) × (ibvio_sread (ibvio_chunk_size + 1)
      ≡ some events)
    × Tiles ibvio_chunk_size (ibvio_chunk_size + 1) 0 chunks
    × (dispatched events ≡ chunks)
    × ReadFirst 0 events
ibvio_sread-ReadFirst_example = ibvio_sread-ReadFirst (ibvio_chunk_size + 1) (omega arith)

chunks_of-Tiles_example :
    (chunks : List Chunk) × (chunks_of 10 4 ≡ some chunks) × Tiles 4 10 0 chunks
chunks_of-Tiles_example = chunks_of-Tiles 10 4 (omega arith) (omega arith)

deserialize_tag-serialize_tag_example :
    deserialize_tag (serialize_tag (pos 4) (negsuc 0))
    ≡ (pos (low_half (pos 4)), pos (low_half (negsuc 0)))
deserialize_tag-serialize_tag_example = deserialize_tag-serialize_tag (pos 4) (negsuc 0)

serve_tag-serialize_tag_example :
    (serve_tag (serialize_tag (pos op_open) (pos 0)) ≡ Handler.sopen)
    × (serve_tag (serialize_tag (pos op_write) (pos 4)) ≡ Handler.swrite (pos 4))
    × (serve_tag (serialize_tag (pos op_write_begin) (pos 4)) ≡ Handler.swrite_begin (pos 4))
    × (serve_tag (serialize_tag (pos op_write_chunk) (pos 4)) ≡ Handler.swrite_chunk (pos 4))
    × (serve_tag (serialize_tag (pos op_read) (pos 4)) ≡ Handler.sread_async (pos 4))
    × (serve_tag (serialize_tag (pos op_close) (pos 4)) ≡ Handler.sclose (pos 4))
serve_tag-serialize_tag_example = serve_tag-serialize_tag 4 (omega arith)

ibtl_open-append_example :
    ibtl_open client (host ++ 58 ∷ path) (pos 1) (pos 0) iopen iopen
    ≡ some (
      connect (pos 2) host
          ∷ send
              (pos 2)
              (serialize_tag (pos op_open) (pos 0))
              (request (record iopen { path = path; flags = pos 1; mode = pos 0 }))
          ∷ recv_open (pos 2) any_tag
          ∷ [],
      pos 4,
      record { host_ids = set client.host_ids 4 (pos 2); next_host_id = 2 + 1 },
    )
ibtl_open-append_example =
    ibtl_open-append client 104 47 [] (97 ∷ []) (pos 1) (pos 0) iopen iopen 4 (refl, tt)
      (refl, (refl, tt)) (omega arith) refl (omega arith)

ibtl_open-write_example : AllWith (pos 2) opening × AllWith (pos 2) calls
ibtl_open-write_example =
    ibtl_open-write client (host ++ 58 ∷ path) (pos 1) (pos 0) iopen iopen opening (pos 4)
      opened_client opened bytes_of 100 3 iopen iopen calls (pos 0) ran

-- a byte a call
abbrev one_byte : ℕ → ℕ → ℤ
one_byte at size = pos 1

one_byte-Advances : Advances one_byte
one_byte-Advances at size more = (1, refl, omega arith, more)

dump_ckpt-Covers_example :
    (chunks : List Chunk) × (dump_ckpt (pos 3) one_byte 2 ≡ done chunks 2) × Covers 2 0 chunks
dump_ckpt-Covers_example =
    dump_ckpt-Covers 3 one_byte 2 one_byte-Advances (omega arith) (omega arith) (omega arith)

-- a write that takes no bytes
abbrev no_bytes : ℕ → ℕ → ℤ
no_bytes at size = pos 0

no_bytes-Sane : Sane no_bytes
no_bytes-Sane at size = inr (0, refl, omega arith)

dump_ckpt-Ends_example : Ends no_bytes 2 0 (dump_ckpt (pos 3) no_bytes 2)
dump_ckpt-Ends_example = dump_ckpt-Ends 3 no_bytes 2 no_bytes-Sane (omega arith) (omega arith)
