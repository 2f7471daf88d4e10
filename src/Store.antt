-- ===== src/Store.antt =====
-- The heap of queue nodes (struct fdmi_queue_data in include/fdmi_queue.h), and commands over it.
-- `malloc` is an argument: the address that it returns, 0 where it fails.
pub mod Returns
pub mod Cells
use libibtl.Base.{ℕ, Option, none, some, ◌==◌, if◌then◌else◌}

abbrev pub Ptr : Type 0
Ptr = ℕ

abbrev pub null : Ptr
null = 0

-- `data` is a reserved word: the field is `item`
pub record Node : Type 0 where
  pub next : Ptr
  pub item : Ptr

abbrev pub node : Ptr → Ptr → Node
node q d = record { next = q; item = d }

abbrev pub Heap : Type 0
Heap = Ptr → Option Node

unfoldable pub write : Heap → Ptr → Option Node → Heap
write before at cell a = if a == at then cell else before a

-- How a call ends: with a value, by an access to memory that is not allocated, by `exit(1)`, by
-- waiting for a mutex that nobody will release, or out of the rounds that a loop was given.
pub data Run {ℓ} (A : Type ℓ) : Type ℓ where
  ok : A → Heap → Run A
  fault : Run A
  exited : Run A
  blocked : Run A
  out_of_fuel : Run A

abbrev pub Cmd {ℓ} : Type ℓ → Type ℓ
Cmd A = Heap → Run A

abbrev pub pure {ℓ} : {A : Type ℓ} → A → Cmd A
pure = ok

module _ {ℓ κ} {A : Type ℓ} {B : Type κ} where
  abbrev pub continue : Run A → (A → Cmd B) → Run B
  continue (ok a h) k = k a h
  continue fault k = fault
  continue exited k = exited
  continue blocked k = blocked
  continue out_of_fuel k = out_of_fuel

  infixl 5 ◌>>=◌ ◌>>◌
  abbrev pub ◌>>=◌ : Cmd A → (A → Cmd B) → Cmd B
  ◌>>=◌ m k h = continue (m h) k

  abbrev pub ◌>>◌ : Cmd A → Cmd B → Cmd B
  m >> n = m >>= λ _. n

-- fdmi_malloc and the writes to the fields of the new node: it exits where `malloc` fails
unfoldable pub alloc : (fresh : Ptr) → Node → Cmd Ptr
alloc fresh n h = if fresh == null then exited else ok fresh (write h fresh (some n))

-- `*address`: a fault at NULL and at an address that is not allocated
unfoldable pub load : Ptr → Cmd Node
load address heap =
    if address == null
    then fault
    else elim (heap address) [ none ↦ fault | some found ↦ ok found heap ]

-- fdmi_free of a node
unfoldable pub free : Ptr → Cmd (Unit {0})
unfolding load
free address = do load address; λ heap. ok tt (write heap address none)

-- `address->next = target`
unfoldable pub set_next : Ptr → (target : Ptr) → Cmd (Unit {0})
unfolding load
set_next address target = do
  old ← load address
  λ heap. ok tt (write heap address (some (record old { next = target })))
