-- ===== src/Store/Returns.antt =====
-- Total correctness of a command: it ends with a value and a heap that satisfy a postcondition.
use libibtl.Store.{Heap, Run, ok, fault, exited, blocked, out_of_fuel, Cmd, continue}

abbrev pub Returns {ℓ} : {A : Type ℓ} → (A → Heap → Type 0) → Run A → Type 0
Returns P (ok a h) = P a h
Returns P fault = ⊥
Returns P exited = ⊥
Returns P blocked = ⊥
Returns P out_of_fuel = ⊥

pub bind {ℓ κ} :
    {A : Type ℓ} {B : Type κ} (P : A → Heap → Type 0) (Q : B → Heap → Type 0) (run : Run A)
    (then_do : A → Cmd B)
    → Returns P run
    → ((result : A) (heap : Heap) → P result heap → Returns Q (then_do result heap))
    → Returns Q (continue run then_do)
bind P Q (ok result heap) then_do p next = next result heap p
bind P Q fault then_do p next = p
bind P Q exited then_do p next = p
bind P Q blocked then_do p next = p
bind P Q out_of_fuel then_do p next = p

pub mono {ℓ} :
    {A : Type ℓ} (P Q : A → Heap → Type 0) (run : Run A)
    → Returns P run
    → ((result : A) (heap : Heap) → P result heap → Q result heap)
    → Returns Q run
mono P Q (ok result heap) p weaken = weaken result heap p
mono P Q fault p weaken = p
mono P Q exited p weaken = p
mono P Q blocked p weaken = p
mono P Q out_of_fuel p weaken = p
