-- ===== src/Engine/Arrival.antt =====
-- The messages and the receives that wait in src/fdmi.c, and the steps that change them.
pub mod Frame
pub mod Settled
pub mod Returns
pub mod Posted
pub mod Sound
pub mod Dispatch
