-- ===== src/Tests.antt =====
-- Concrete inputs of the theorems, on which their hypotheses hold.
mod QueueRuns
mod DatatypeRuns
mod EngineRuns
mod HashtableRuns
mod ProcManRuns
mod IbioRuns
mod EventsRuns
mod SoundRuns
mod LocksRuns
mod TransferRuns
mod ReadingRuns
mod LinkedRuns
