-- ===== src/Tests/LocksRuns.antt =====
-- Two threads of src/fdmi.c that meet at the mutexes of the two queues.
use libibtl.Base.{◌≡◌, refl, true, none, some, List, [], ◌∷◌}
use libibtl.Engine.Locks.{
  aq, pq, acquire, release, EngineCall, wc_recv_init, call_irecv, call_flush_query_qp, reused,
  eager, unmatched, locks_of, locks_of_all, free_query_q,
}
use libibtl.Engine.Locks.System.{Thread, step, run, start}
use libibtl.Engine.Locks.Finish.{CanFinish, run-CanFinish}

abbrev second : List EngineCall
second = call_irecv true eager ∷ call_flush_query_qp 1 0 ∷ []

abbrev programs : List (List EngineCall)
programs = (wc_recv_init unmatched reused ∷ []) ∷ second ∷ []

-- The poller has the first mutex, and the other thread waits for it.
abbrev polling : List Thread
polling =
    record {
      held = aq ∷ [];
      actions =
          acquire pq ∷ release aq ∷ release pq ∷ acquire free_query_q ∷ release free_query_q ∷ [];
    }
    ∷ record { held = []; actions = locks_of_all second }
    ∷ []

second_waits : step 1 polling ≡ none
unfolding step locks_of_all locks_of
second_waits = refl

polled : run (0 ∷ []) (start programs) ≡ some polling
unfolding run start locks_of_all locks_of
polled = refl

run-CanFinish_example : CanFinish polling
run-CanFinish_example = run-CanFinish programs (0 ∷ []) polled
