-- ===== src/ProcMan/Update.antt =====
-- fdmi_update_comm_world: a failed rank hands its virtual rank to an elected one.
pub mod Shared
use libibtl.Base.{ℕ, ◌≡◌, Option, some, get_elem?}
use libibtl.Base.Int.{ℤ, pos}
use libibtl.ProcMan.{Comm}

-- the two maps say the same
pub record Inverse (c : Comm) : Type 0 where
  pub back :
      (v p : ℕ) → get_elem? c.rmap_vtop v ≡ some (pos p) → get_elem? c.rmap_ptov p ≡ some (pos v)
  pub forth :
      (v p : ℕ) → get_elem? c.rmap_ptov p ≡ some (pos v) → get_elem? c.rmap_vtop v ≡ some (pos p)

pub pos_inj : {m n : ℕ} → pos m ≡ pos n → m ≡ n
pos_inj e = cc

-- the virtual and the physical rank of a communicator's maps
abbrev pub ptov : Comm → ℕ → Option ℤ
ptov c = get_elem? c.rmap_ptov

abbrev pub vtop : Comm → ℕ → Option ℤ
vtop c = get_elem? c.rmap_vtop
