-- ===== src/Tests/SoundRuns.antt =====
-- A message arrives, a receive takes it, and a send follows (src/fdmi.c).
use libibtl.Base.{refl, some, List, [], ◌∷◌, inr, arith}
use libibtl.Base.Int.{pos, IsInt}
use libibtl.Engine.Send.{wc_recv}
use libibtl.Engine.Matching.{All}
use libibtl.Engine.Arrival.Settled.{Settled}
use libibtl.Engine.Arrival.Returns.{Leaves}
use libibtl.Engine.Arrival.Sound.{Usable}
use libibtl.Engine.Arrival.Sound.Run.{
  Operation, isend_call, irecv_call, completion, perform_all, Allowed, perform_all-Leaves,
}
use libibtl.Tests.EngineRuns.{
  some_mr, connection, platform, platform-Accepts, empty_engine, message, param, four_ranks,
  four_ranks-get_prank,
}

abbrev operations : List Operation
operations =
    completion (λ p. pos 3) wc_recv message
    ∷ irecv_call four_ranks (pos 3) param
    ∷ isend_call (pos 0) (some connection) param
    ∷ []

three-IsInt : IsInt (pos 3)
three-IsInt = omega arith

seven-IsInt : IsInt (pos 7)
seven-IsInt = omega arith

operations-Allowed : All Allowed operations
operations-Allowed = (
  ((connection, refl), (inr (some_mr, refl), tt)),
  (
    ((pos 3, four_ranks-get_prank, three-IsInt), seven-IsInt, refl),
    (((connection, refl), refl), tt),
  ),
)

empty-Usable : Usable empty_engine
empty-Usable = record { free = tt; waiting = tt; arrived = tt; sending = tt }

empty-Settled : Settled empty_engine
empty-Settled = record { current = tt; apart = tt }

perform_all-Leaves_example :
    Leaves (λ e'. Usable e' × Settled e') (perform_all platform operations empty_engine)
perform_all-Leaves_example =
    perform_all-Leaves platform operations empty_engine operations-Allowed
      (empty-Usable, empty-Settled) platform-Accepts
