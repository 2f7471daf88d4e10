-- ===== src/Ibio/Session/Reached.antt =====
-- examples/ibio_server.c, a write in chunks: every step keeps the invariant, and what a client has when
-- the reply is sent.
use libibtl.Base.{
  ℕ, suc, ◌+◌, ◌-◌, ◌≤◌, ◌<◌, min, ◌≡◌, refl, sym, ap, subst, ◌∙◌, Option, some, List, [], ◌∷◌,
  arith, inl, inr, Bool-cases, some_inj, ◌==◌,
}
use libibtl.Datatype.{Memory, memcpy}
use libibtl.Ibio.{ibvio_chunk_size, buf_size, Payload, bytes}
use libibtl.Ibio.Chunks.{Chunk, Tiles}
use libibtl.Ibio.Server.{OpenInfo}
use libibtl.Ibio.Session.{
  File, ibvio_swrite_chunk, ibvio_swrite_chunk_thread, Phase, after_chunk, Session, Step, chunk,
  thread, reply, Steps, start, later,
}
use libibtl.Ibio.Session.Invariant.{
  messages, Holds, PhaseAt, Counted, Inv, Holds-memcpy, Holds-memcpy_at, swrite_chunk-run,
  swrite_chunk_thread-run,
}

after_chunk-PhaseAt :
    (count : ℕ) (info : OpenInfo)
    → info.write_count ≡ count
    → info.current_recv_size ≤ count
    → PhaseAt count (after_chunk info) info
after_chunk-PhaseAt count info total h =
    elim (Bool-cases (info.current_recv_size == info.write_count)) [
      | inl last ↦ rw last (ground arith)
      | inr more ↦ rw more (ground arith)
    ]

PhaseAt-written :
    (count : ℕ) (phase : Phase) (info : OpenInfo) (n : ℕ)
    → PhaseAt count phase info
    → info.current_write_count ≤ n
    → n ≤ count
    → PhaseAt count phase (record info { current_write_count = n })
PhaseAt-written count Phase.serving info n at more h = at
PhaseAt-written count Phase.waiting info n at more h = at
PhaseAt-written count Phase.replied info n at more h = (at.0, omega (arith, at.1))

module _ (memory : Memory) (buf count offset : ℕ) (fits : count ≤ buf_size) where
  pub Inv-begin :
      (info : OpenInfo) (fresh content : Memory) (chunks : List Chunk)
      → 0 < count
      → Counted count 0 0 info
      → info.cache ≡ some fresh
      → Tiles ibvio_chunk_size count 0 chunks
      → Inv memory buf count offset (record {
        info = info;
        inbox = messages memory buf chunks;
        threads = 0;
        file = record { position = offset; content = content };
        phase = Phase.serving;
      })
  Inv-begin info fresh content chunks pos counted cached tiles = record {
    j = 0;
    k = 0;
    counted = counted;
    behind = refl;
    cache = fresh;
    cached = cached;
    filled = λ a h. absurd (omega (arith, counted.received));
    chunks = chunks;
    tiles = subst (λ n. Tiles ibvio_chunk_size count n chunks) (sym is_zero) tiles;
    arriving = refl;
    at_end = omega (arith, counted.written);
    copied = λ a h. absurd (omega (arith, counted.written));
    at_phase = omega (arith, counted.received);
  }
    where
      is_zero : info.current_recv_size ≡ 0
      is_zero = omega (arith, counted.received)

  -- a chunk of the client arrives
  Inv-chunk :
      (s : Session) (message : Payload) (rest : List Payload) (info : OpenInfo)
      → (inv : Inv memory buf count offset s) → (chunks : List Chunk)
      → Tiles ibvio_chunk_size count s.info.current_recv_size chunks
      → s.inbox ≡ messages memory buf chunks
      → s.phase ≡ Phase.serving
      → s.inbox ≡ message ∷ rest
      → ibvio_swrite_chunk message s.info ≡ some info
      → Inv memory buf count offset (record s {
        info = info;
        inbox = rest;
        threads = suc s.threads;
        phase = after_chunk info;
      })
  unfolding messages
  Inv-chunk s message rest info inv [] tiles arriving phase head run = absurd cc
  Inv-chunk s message rest info inv ((at, size) ∷ chunks) (here, is_size, pos, tiles) arriving phase
        head run =
      let e : bytes memory (buf + at) size ≡ message = cc in
      let e' : messages memory buf chunks ≡ rest = cc in
      let h : at ≤ count = omega (arith, inv.counted.received) in
      let result =
        swrite_chunk-run memory buf count at size s.info inv.cache fits inv.counted.total (sym here)
          h (rw here is_size) inv.cached in
      let is_info : record s.info {
        current_recv_size = at + size;
        cache = some (memcpy memory (buf + at) inv.cache at size);
      }
          ≡ info =
        some_inj (sym result ∙ subst (λ m. ibvio_swrite_chunk m s.info ≡ some info) (sym e) run) in
      subst
        (λ i.
          Inv memory buf count offset
            (record s { info = i; inbox = rest; threads = suc s.threads; phase = after_chunk i }))
        is_info
        (record {
          j = suc inv.j;
          k = inv.k;
          counted = record {
            total = inv.counted.total;
            received = omega (arith, inv.counted.received);
            written = inv.counted.written;
          };
          behind = omega (arith, inv.behind);
          cache = memcpy memory (buf + at) inv.cache at size;
          cached = refl;
          filled =
              subst (λ n. Holds memory buf (n + size) (memcpy memory (buf + at) inv.cache n size))
                refl
                (Holds-memcpy memory buf at size memory inv.cache (buf + at)
                  (subst (λ n. Holds memory buf n inv.cache) (sym here) inv.filled)
                  (λ a h. ap memory (omega arith)));
          chunks = chunks;
          tiles = subst (λ n. Tiles ibvio_chunk_size count (n + size) chunks) (sym here) tiles;
          arriving = sym e';
          at_end = inv.at_end;
          copied = inv.copied;
          at_phase =
              after_chunk-PhaseAt count _ inv.counted.total (omega (arith, inv.counted.received));
        })

  -- a thread writes its chunk, which has been received
  Inv-thread :
      (write : ℕ → Option ℕ)
      → ((n : ℕ) → write n ≡ some n)
      → (s : Session) (t : ℕ) (info : OpenInfo) (file : File)
      → (inv : Inv memory buf count offset s) → s.threads ≡ suc t
      → ibvio_swrite_chunk_thread write s.info s.file ≡ some (info, file)
      → Inv memory buf count offset (record s { info = info; threads = t; file = file })
  Inv-thread write full s t info file inv one run =
      let at = s.info.current_write_count in
      let size = min ibvio_chunk_size (count - at) in
      let h : at ≤ count = omega (arith, inv.counted.written) in
      let received : at + size ≤ s.info.current_recv_size =
        omega (arith, inv.counted.received, inv.counted.written, inv.behind, one) in
      let result =
        swrite_chunk_thread-run write count s.info inv.cache s.file full fits inv.counted.total h
          inv.cached in
      let e = some_inj (sym result ∙ run) in
      subst (λ p. Inv memory buf count offset (record s { info = p.0; threads = t; file = p.1 })) e
        (record {
          j = inv.j;
          k = suc inv.k;
          counted = record {
            total = inv.counted.total;
            received = inv.counted.received;
            written = omega (arith, inv.counted.written);
          };
          behind = omega (arith, inv.behind, one);
          cache = inv.cache;
          cached = inv.cached;
          filled = inv.filled;
          chunks = inv.chunks;
          tiles = inv.tiles;
          arriving = inv.arriving;
          at_end = omega (arith, inv.at_end);
          copied =
              subst
                (λ n.
                  Holds memory buf (at + size)
                    (λ i. memcpy inv.cache at s.file.content n size (offset + i)))
                (sym inv.at_end)
                (Holds-memcpy_at memory buf at size offset inv.cache s.file.content at inv.copied
                  (λ a lt. inv.filled (at + a) (omega (arith, received))));
          at_phase =
              PhaseAt-written count s.phase s.info (at + size) inv.at_phase (omega arith)
                (omega (arith, h));
        })

  pub Step-Inv :
      (write : ℕ → Option ℕ)
      → ((n : ℕ) → write n ≡ some n)
      → {s t : Session} → Step write s t
      → Inv memory buf count offset s
      → Inv memory buf count offset t
  Step-Inv write full {s} (chunk {message} {rest} {info} phase head run) inv =
      Inv-chunk s message rest info inv inv.chunks inv.tiles inv.arriving phase head run
  Step-Inv write full {s} (thread {t} {info} {file} one run) inv =
      Inv-thread write full s t info file inv one run
  Step-Inv write full {s} (reply phase done) inv = record {
    j = inv.j;
    k = inv.k;
    counted = inv.counted;
    behind = inv.behind;
    cache = inv.cache;
    cached = inv.cached;
    filled = inv.filled;
    chunks = inv.chunks;
    tiles = inv.tiles;
    arriving = inv.arriving;
    at_end = inv.at_end;
    copied = inv.copied;
    at_phase = (subst (λ p. PhaseAt count p s.info) phase inv.at_phase, done ∙ inv.counted.total);
  }

  pub Steps-Inv :
      (write : ℕ → Option ℕ)
      → ((n : ℕ) → write n ≡ some n)
      → {s t : Session} → Inv memory buf count offset s
      → Steps write s t
      → Inv memory buf count offset t
  Steps-Inv write full inv start = inv
  Steps-Inv write full inv (later steps step) =
      Step-Inv write full step (Steps-Inv write full inv steps)
