-- ===== src/Ibio/Session/Write.antt =====
-- examples/ibio_client.c and examples/ibio_server.c together: ibtl_write of a client, and what the server
-- makes of the calls, from ibvio_swrite_begin to the reply.
use libibtl.Base.{
  ℕ, ◌+◌, ◌*◌, min, ◌≤◌, ◌<◌, ◌≡◌, refl, sym, ap, subst, ◌∙◌, Option, some, List, [], ◌∷◌, ◌++◌,
  arith, set, some_inj, get_elem?, get_elem?-set_self, lt→ltb, lt_of_some, Option-cases, inl, inr,
}
use libibtl.Base.Int.{ℤ, pos, negsuc, to_int, to_u64}
use libibtl.Datatype.{Memory}
use libibtl.Engine.{any_tag}
use libibtl.ProcMan.{read_at, write_at}
use libibtl.Ibio.{ibvio_chunk_size, buf_size, op_write_chunk, IbvioOpen, bytes, Call, recv_open}
use libibtl.Ibio.Tag.{serialize_tag}
use libibtl.Ibio.Chunks.{◌>>=◌, Chunk, Tiles, chunks_of-Tiles}
use libibtl.Ibio.Client.{Client, send_chunks, ibtl_write}
use libibtl.Ibio.Server.{OpenInfo, Event, Table, ibvio_swrite_begin}
use libibtl.Ibio.Session.{Phase, Session, Steps, sent, begin}
use libibtl.Ibio.Session.Invariant.{messages, Holds, PhaseAt, Counted, Inv}
use libibtl.Ibio.Session.Reached.{Inv-begin, Steps-Inv}
use libibtl.Ibio.Session.Progress.{steps_left, Inv-replied}

sent-send_chunks :
    (host tag : ℤ) (memory : Memory) (buf : ℕ) (chunks : List Chunk) (peer : ℤ)
    → sent (send_chunks host tag memory buf chunks ++ recv_open peer any_tag ∷ [])
      ≡ messages memory buf chunks
unfolding sent send_chunks messages
sent-send_chunks host tag memory buf [] peer = refl
sent-send_chunks host tag memory buf ((at, size) ∷ chunks) peer =
    ap (λ m. bytes memory (buf + at) size ∷ m) (sent-send_chunks host tag memory buf chunks peer)

-- the chunks under way after ibtl_write
ibtl_write-sent :
    (c : Client) (fd : ℤ) (memory : Memory) (buf count : ℕ) (stack reply : IbvioOpen)
    (calls : List Call) (r : ℤ)
    → ibtl_write c fd memory buf count stack reply ≡ some (calls, r)
    → count ≤ buf_size
    → (chunks : List Chunk) × Tiles ibvio_chunk_size count 0 chunks
      × (sent calls ≡ messages memory buf chunks)
unfolding ibtl_write sent
ibtl_write-sent c fd memory buf count stack reply calls r run fits =
    let (chunks, cut, tiles) =
      chunks_of-Tiles count ibvio_chunk_size (omega arith) (omega (arith, fits)) in
    elim (Option-cases (read_at c.host_ids fd)) [
      | inl nowhere ↦ let none_eq = rw (nowhere, ◌>>=◌) at run in absurd cc
      | inr (host, e) ↦ (
        chunks,
        tiles,
        (let same = some_inj (rw (e, ◌>>=◌, cut) at run) in
            sym (ap (λ p. sent p.0) same)
            ∙ sent-send_chunks host (serialize_tag (pos op_write_chunk) fd) memory buf chunks host),
      )
    ]

min-zero : (count : ℕ) → 0 ≡ min (0 * ibvio_chunk_size) count
min-zero count = omega arith

same_count : (count : ℕ) → count ≤ buf_size → to_u64 (to_int count) ≡ count
same_count count fits = ground arith

-- the entry after ibvio_swrite_begin
swrite_begin-Counted :
    (fd : ℤ) (count : ℕ) (stack : IbvioOpen) (table table' : Table) (events : List Event)
    (info : OpenInfo)
    → ibvio_swrite_begin fd (record stack { count = to_int count }) table ≡ some (events, table')
    → read_at table' fd ≡ some info
    → count ≤ buf_size
    → Counted count 0 0 info
unfolding ibvio_swrite_begin read_at write_at
swrite_begin-Counted (pos i) count stack table table' events info run entry fits =
    elim (Option-cases (get_elem? table i)) [
      | inl nowhere ↦ let none_eq = rw (nowhere, ◌>>=◌) at run in absurd cc
      | inr (old, e) ↦
          let lt = lt_of_some table i old e in
          let new : OpenInfo = record old {
            write_count = to_u64 (to_int count);
            current_recv_size = 0;
            current_write_count = 0;
          } in
          let same : (Event.recv_open ∷ [], set table i new) ≡ (events, table') =
            some_inj (rw (e, ◌>>=◌, lt→ltb _ _ lt) at run) in
          let is_new : new ≡ info =
            some_inj
              (sym (get_elem?-set_self table i new lt) ∙ ap (λ p. get_elem? p.1 i) same ∙ entry) in
          let counted : Counted count 0 0 new = record {
            total = same_count count fits;
            received = min-zero count;
            written = min-zero count;
          } in
          subst (Counted count 0 0) is_new counted
    ]
swrite_begin-Counted (negsuc i) count stack table table' events info run entry fits = absurd cc

module _ (c : Client) (fd : ℤ) (memory : Memory) (buf count : ℕ) (stack reply : IbvioOpen)
    (calls : List Call) (r : ℤ)
    (written : ibtl_write c fd memory buf count stack reply ≡ some (calls, r)) (sfd : ℤ)
    (table table' : Table) (events : List Event)
    (begun : ibvio_swrite_begin sfd (record stack { count = to_int count }) table
      ≡ some (events, table'))
    (info : OpenInfo) (entry : read_at table' sfd ≡ some info) (cache : Memory)
    (cached : info.cache ≡ some cache) (pos_count : 0 < count) (fits : count ≤ buf_size)
    (write : ℕ → Option ℕ) (full : (n : ℕ) → write n ≡ some n) (offset : ℕ) (content : Memory)
    {s : Session} (steps : Steps write (begin info offset content calls) s) where
  reached : Inv memory buf count offset s
  unfolding begin
  reached =
      let (chunks, tiles, under_way) =
        ibtl_write-sent c fd memory buf count stack reply calls r written fits in
      let counted =
        swrite_begin-Counted sfd count stack table table' events info begun entry fits in
      let at_start =
        Inv-begin memory buf count offset fits info cache content chunks pos_count counted cached
          tiles in
      Steps-Inv memory buf count offset fits write full
        (subst
          (λ inbox.
            Inv memory buf count offset
              (record (begin info offset content calls) { inbox = inbox }))
          (sym under_way) at_start)
        steps

  -- Let a client write between 1 and BUF_SIZE bytes of its memory by ibtl_write, the server enter the
  -- count by ibvio_swrite_begin into an entry with a cache, and each write() take all it is given. However
  -- the arrivals of the chunks and the threads interleave, the descriptor stands at any time behind where
  -- it stood at the beginning, by no more than what has been received, and between the two offsets the
  -- file has the first of the client's bytes.
  pub write_chunks-prefix :
      (n : ℕ) × (s.file.position ≡ offset + n)
      × (n ≤ s.info.current_recv_size)
      × (s.info.current_recv_size ≤ count)
      × Holds memory buf n (λ i. s.file.content (offset + i))
  write_chunks-prefix =
      let inv = reached in
      (
        s.info.current_write_count,
        inv.at_end,
        omega (arith, inv.counted.received, inv.counted.written, inv.behind),
        omega (arith, inv.counted.received),
        inv.copied,
      )

  -- Let a client write between 1 and BUF_SIZE bytes of its memory by ibtl_write, the server enter the
  -- count by ibvio_swrite_begin into an entry with a cache, and each write() take all it is given. Once
  -- the server has replied, the file has all bytes of the client's buffer, in order, from where the
  -- descriptor stood at the beginning, and the descriptor stands behind them.
  pub write_chunks-replied :
      s.phase ≡ Phase.replied
      → (s.file.position ≡ offset + count)
        × Holds memory buf count (λ i. s.file.content (offset + i))
  write_chunks-replied done =
      let inv = reached in
      let at_phase = subst (λ p. PhaseAt count p s.info) done inv.at_phase in
      (
        inv.at_end ∙ ap (λ n. offset + n) at_phase.1,
        subst (λ n. Holds memory buf n (λ i. s.file.content (offset + i))) at_phase.1 inv.copied,
      )

  -- Let a client write between 1 and BUF_SIZE bytes of its memory by ibtl_write, the server enter the
  -- count by ibvio_swrite_begin into an entry with a cache, and each write() take all it is given. From
  -- any state that the server and its threads reach, there are steps that lead to the reply.
  pub write_chunks-reply : (t : Session) × Steps write s t × (t.phase ≡ Phase.replied)
  write_chunks-reply =
      Inv-replied memory buf count offset fits write full (steps_left s) s reached (omega arith)
