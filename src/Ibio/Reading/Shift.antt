-- ===== src/Ibio/Reading/Shift.antt =====
-- A read from an offset on is a read of the rest of the file.
use libibtl.Base.{ℕ, ◌+◌, ◌-◌, ◌≡◌, refl, ap, List, [], ◌∷◌, min, arith, fun_ext}
use libibtl.Datatype.{Memory, memcpy}
use libibtl.Ibio.{bytes}
use libibtl.Ibio.Server.{Event}
use libibtl.Ibio.Reading.{serve_events}

memcpy_shift :
    (file cache : Memory) (base offset at n : ℕ)
    → memcpy file (base + offset) cache at n ≡ memcpy (λ i. file (base + i)) offset cache at n
unfolding memcpy
memcpy_shift file cache base offset at n = fun_ext (λ a.
    let assoc : base + offset + (a - at) ≡ base + (offset + (a - at)) = omega arith in
    rw assoc refl)

pub serve_events-shift :
    (file : Memory) (len base offset : ℕ) (cache : Memory) (events : List Event)
    → serve_events file len events (base + offset) cache
      ≡ serve_events (λ i. file (base + i)) (len - base) events offset cache
unfolding serve_events
serve_events-shift file len base offset cache [] = refl
serve_events-shift file len base offset cache (Event.read_file at size ∷ events) =
    let rest : len - (base + offset) ≡ len - base - offset = omega arith in
    let n = min size (len - base - offset) in
    let there : base + offset + n ≡ base + (offset + n) = omega arith in
    rw (rest, there, memcpy_shift file cache base offset at n)
      (serve_events-shift file len base (offset + n)
        (memcpy (λ i. file (base + i)) offset cache at n) events)
serve_events-shift file len base offset cache (Event.isend at size ∷ events) =
    ap (λ messages. bytes cache at size ∷ messages)
      (serve_events-shift file len base offset cache events)
serve_events-shift file len base offset cache (Event.recv_open ∷ events) =
    serve_events-shift file len base offset cache events
serve_events-shift file len base offset cache (Event.irecv at size ∷ events) =
    serve_events-shift file len base offset cache events
serve_events-shift file len base offset cache (Event.wait ∷ events) =
    serve_events-shift file len base offset cache events
serve_events-shift file len base offset cache (Event.write_file at size ∷ events) =
    serve_events-shift file len base offset cache events
serve_events-shift file len base offset cache (Event.fsync ∷ events) =
    serve_events-shift file len base offset cache events
serve_events-shift file len base offset cache (Event.run_thread ∷ events) =
    serve_events-shift file len base offset cache events
serve_events-shift file len base offset cache (Event.reply iopen ∷ events) =
    serve_events-shift file len base offset cache events
serve_events-shift file len base offset cache (Event.close_file ∷ events) =
    serve_events-shift file len base offset cache events
