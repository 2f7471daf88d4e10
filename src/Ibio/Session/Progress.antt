-- ===== src/Ibio/Session/Progress.antt =====
-- examples/ibio_server.c, a write in chunks: the steps come to an end, and the end is the reply.
use libibtl.Base.{
  ℕ, zero, suc, ◌+◌, ◌-◌, ◌*◌, ◌≤◌, ◌<◌, ◌≡◌, refl, sym, subst, Option, some, List, [], ◌∷◌, arith,
  ◌⊎◌, inl, inr, length, Bool-cases, ◌==◌,
}
use libibtl.Datatype.{Memory}
use libibtl.Ibio.{ibvio_chunk_size, buf_size}
use libibtl.Ibio.Chunks.{Chunk, Tiles}
use libibtl.Ibio.Server.{OpenInfo}
use libibtl.Ibio.Session.{
  Phase, after_chunk, Session, Step, chunk, thread, reply, Steps, start, later,
}
use libibtl.Ibio.Session.Invariant.{
  messages, Inv, PhaseAt, swrite_chunk-run, swrite_chunk_thread-run,
}
use libibtl.Ibio.Session.Reached.{Step-Inv}

abbrev pub unreplied : Phase → ℕ
unreplied Phase.replied = 0
unreplied phase = 1

-- the steps that can still come: each chunk is received and then written
abbrev pub steps_left : Session → ℕ
steps_left s = 2 * length s.inbox + s.threads + unreplied s.phase

after_chunk-unreplied : (info : OpenInfo) → unreplied (after_chunk info) ≡ 1
after_chunk-unreplied info = elim (Bool-cases (info.current_recv_size == info.write_count)) [
  | inl last ↦ rw last refl
  | inr more ↦ rw more refl
]

Step-steps_left :
    {write : ℕ → Option ℕ} {s t : Session} → Step write s t → steps_left t + 1 ≡ steps_left s
Step-steps_left {s} (chunk {message} {rest} {info} phase head run) =
    rw (phase, head, after_chunk-unreplied info) (omega arith)
Step-steps_left {s} (thread one run) = rw one (omega arith)
Step-steps_left {s} (reply phase done) = rw phase (omega arith)

module _ (memory : Memory) (buf count offset : ℕ) (fits : count ≤ buf_size) (write : ℕ → Option ℕ)
    (full : (n : ℕ) → write n ≡ some n) where
  -- before the last chunk there is one to take
  serving-Step :
      (s : Session) (inv : Inv memory buf count offset s) (chunks : List Chunk)
      → Tiles ibvio_chunk_size count s.info.current_recv_size chunks
      → s.inbox ≡ messages memory buf chunks
      → s.info.current_recv_size < count
      → s.phase ≡ Phase.serving
      → (t : Session) × Step write s t
  unfolding messages
  serving-Step s inv [] tiles arriving more phase = absurd (omega (arith, tiles, more))
  serving-Step s inv ((at, size) ∷ chunks) (here, is_size, pos, tiles) arriving more phase = (
    _,
    chunk phase arriving (
        swrite_chunk-run memory buf count at size s.info inv.cache fits inv.counted.total (sym here)
          (omega arith) (rw here is_size) inv.cached),
  )

  not_stuck :
      (s : Session) (inv : Inv memory buf count offset s) (phase : Phase)
      → s.phase ≡ phase
      → (s.phase ≡ Phase.replied) ⊎ ((t : Session) × Step write s t)
  not_stuck s inv Phase.serving e = inr (
      serving-Step s inv inv.chunks inv.tiles inv.arriving
        (subst (λ p. PhaseAt count p s.info) e inv.at_phase) e)
  not_stuck s inv Phase.waiting e =
      let all : s.info.current_recv_size ≡ count =
        subst (λ p. PhaseAt count p s.info) e inv.at_phase in
      elim (Bool-cases (s.info.current_write_count == count)) [
        | inl done ↦ inr (_, reply e (ground (arith, inv.counted.total)))
        | inr behind ↦
            let some_left : s.threads ≡ suc (s.threads - 1) =
              ground (arith, all, inv.counted.received, inv.counted.written, inv.behind, behind) in
            inr (
              _,
              thread some_left (
                  swrite_chunk_thread-run write count s.info inv.cache s.file full fits
                    inv.counted.total (omega (arith, inv.counted.written)) inv.cached),
            )
      ]
  not_stuck s inv Phase.replied e = inl e

  append : {s t u : Session} → Step write s t → Steps write t u → Steps write s u
  append step start = later start step
  append step (later steps last) = later (append step steps) last

  -- From where the invariant holds the reply can be reached.
  pub Inv-replied :
      (rounds : ℕ) (s : Session)
      → Inv memory buf count offset s
      → steps_left s ≤ rounds
      → (t : Session) × Steps write s t × (t.phase ≡ Phase.replied)
  Inv-replied zero s inv few = elim (not_stuck s inv s.phase refl) [
    | inl done ↦ (s, start, done)
    | inr (t, step) ↦ absurd (omega (arith, Step-steps_left step))
  ]
  Inv-replied (suc rounds) s inv few = elim (not_stuck s inv s.phase refl) [
    | inl done ↦ (s, start, done)
    | inr (t, step) ↦
        let after = Step-Inv memory buf count offset fits write full step inv in
        let (u, steps, done) =
          Inv-replied rounds t after (omega (arith, few, Step-steps_left step)) in
        (u, append step steps, done)
  ]
