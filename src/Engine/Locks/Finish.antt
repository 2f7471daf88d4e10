-- ===== src/Engine/Locks/Finish.antt =====
-- The threads of src/fdmi.c never wait for each other in a circle: from every state that they reach,
-- they can be run to their ends.
use libibtl.Base.{
  ℕ, zero, suc, ◌≤◌, ◌≡◌, refl, subst, true, some, List, [], ◌∷◌, arith, inl, inr, Bool-cases,
  some_inj,
}
use libibtl.Engine.Locks.{EngineCall}
use libibtl.Engine.Locks.System.{◌>>=◌, Thread, step, run, all_done, start}
use libibtl.Engine.Locks.Ordered.{Ordered, locks_of_all-Ordered}
use libibtl.Engine.Locks.Progress.{Orderly, CanStep, step-Orderly, remaining, bind_some, can_step}

start-Orderly : (programs : List (List EngineCall)) → Orderly (start programs)
unfolding Orderly start
start-Orderly [] i t at = cc
start-Orderly (calls ∷ programs) zero t at =
    subst (λ x. Ordered x.held x.actions) (some_inj at) (locks_of_all-Ordered calls)
start-Orderly (calls ∷ programs) (suc i) t at = start-Orderly programs i t at

run-Orderly :
    (schedule : List ℕ) (threads : List Thread) {threads' : List Thread}
    → Orderly threads
    → run schedule threads ≡ some threads'
    → Orderly threads'
unfolding run
run-Orderly [] threads ok e = subst Orderly (some_inj e) ok
run-Orderly (i ∷ schedule) threads ok e =
    let (next, stepped, others) = bind_some (step i threads) (run schedule) e in
    run-Orderly schedule next (step-Orderly i threads ok stepped).0 others

-- the threads can be run to their ends
abbrev pub CanFinish : List Thread → Type 0
CanFinish threads =
    (schedule : List ℕ) × (last : List Thread) × (run schedule threads ≡ some last)
    × (all_done last ≡ true)

finish :
    (n : ℕ) (threads : List Thread) → Orderly threads → remaining threads ≤ n → CanFinish threads
unfolding run CanStep
finish zero threads ok few = elim (Bool-cases (all_done threads)) [
  | inl done ↦ ([], threads, refl, done)
  | inr open_end ↦
      let (j, next, stepped) = can_step threads ok open_end in
      absurd (omega (arith, (step-Orderly j threads ok stepped).1, few))
]
finish (suc n) threads ok few = elim (Bool-cases (all_done threads)) [
  | inl done ↦ ([], threads, refl, done)
  | inr open_end ↦
      let (j, next, stepped) = can_step threads ok open_end in
      let (ok', fewer) = step-Orderly j threads ok stepped in
      let (schedule, last, ran, done) = finish n next ok' (omega (arith, fewer, few)) in
      (j ∷ schedule, last, rw (stepped, ◌>>=◌) ran, done)
]

-- However many threads make whatever calls of the engine, in whatever order they are scheduled: from each
-- state that they reach, a schedule runs all of them to their ends. So the mutexes of the queues cannot
-- lead to a deadlock.
pub run-CanFinish :
    (programs : List (List EngineCall)) (schedule : List ℕ) {threads : List Thread}
    → run schedule (start programs) ≡ some threads
    → CanFinish threads
run-CanFinish programs schedule {threads} e =
    finish (remaining threads) threads
      (run-Orderly schedule (start programs) (start-Orderly programs) e) (omega arith)
