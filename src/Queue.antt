-- ===== src/Queue.antt =====
-- src/fdmi_queue.c and include/fdmi_queue.h, on the heap of nodes. A `struct fdmi_queue` lives
-- outside the heap, so a function that updates one returns the new value. Each loop takes as many
-- rounds as the queue has nodes, and one more.
pub mod Holds
pub mod Iterate
pub mod Remove
pub mod Cursor
pub mod Drain
pub mod Locked
pub mod Search
pub mod Filter
use libibtl.Base.{ℕ, zero, suc, ◌+◌, ◌-◌, Bool, true, false, ◌&&◌, none, ◌==◌, if◌then◌else◌}
use libibtl.Base.Int.{ℤ, pos, minus_one}
use libibtl.Store.{
  Ptr, null, node, Cmd, Run, ok, blocked, out_of_fuel, pure, ◌>>=◌, ◌>>◌, alloc, load, set_next,
  free,
}

-- `length` counts the linked nodes, so it is neither negative nor too large for an `int`
pub record Queue : Type 0 where
  pub head : Ptr
  pub tail : Ptr
  pub ite : Ptr
  pub mut : Bool
  pub length : ℕ

pub data IteratorState : Type 0 where
  queue_head queue_next : IteratorState

-- `ite` is not initialised: it holds the bits `garbage` that `malloc` left there
unfoldable pub create : (garbage : Ptr) → Queue
create garbage = record { head = null; tail = null; ite = garbage; mut = false; length = 0 }

unfoldable pub length : Queue → ℕ
length q = q.length

-- a default mutex: a lock that the caller holds already is waited for without end
unfoldable pub lock : Queue → Cmd Queue
lock q = if q.mut then (λ _. blocked) else pure (record q { mut = true })

unfoldable pub unlock : Queue → Cmd Queue
unlock q = pure (record q { mut = false })

unfoldable pub enq : (fresh : Ptr) → Queue → (item : Ptr) → Cmd Queue
enq fresh q item = do
  d ← alloc fresh (node null item)
  if (q.head == null) && (q.tail == null)
      then pure (record q { head = d; tail = d; length = q.length + 1 })
      else do set_next q.tail d; pure (record q { tail = d; length = q.length + 1 })

unfoldable pub lock_enq : (fresh : Ptr) → Queue → (item : Ptr) → Cmd Queue
unfolding lock unlock enq
lock_enq fresh q item = do q₁ ← lock q; q₂ ← enq fresh q₁ item; unlock q₂

unfoldable pub deq : Queue → Cmd (Ptr × Queue)
deq q = if q.head == null then pure (null, q) else do
  n ← load q.head
  free q.head
  pure (
    n.item,
    record q {
      head = n.next;
      tail = if n.next == null then null else q.tail;
      length = q.length - 1;
    },
  )

unfoldable pub lock_deq : Queue → Cmd (Ptr × Queue)
unfolding lock unlock deq
lock_deq q = do q₁ ← lock q; (item, q₂) ← deq q₁; q₃ ← unlock q₂; pure (item, q₃)

unfoldable pub iterate : Queue → IteratorState → Cmd (Ptr × Queue)
iterate q queue_head =
    if q.head == null
    then pure (null, q)
    else do n ← load q.head; pure (n.item, record q { ite = n.next })
iterate q queue_next =
    if q.ite == null
    then pure (null, q)
    else do n ← load q.ite; pure (n.item, record q { ite = n.next })

index_loop : Ptr → ℕ → (tmp : Ptr) → (tmp_index : ℕ) → Queue → Cmd (ℤ × Queue)
index_loop item zero tmp i q = λ _. out_of_fuel
index_loop item (suc k) tmp i q =
    if tmp == null
    then pure (minus_one, q)
    else if tmp == item
    then pure (pos i, q)
    else (do (t, q') ← iterate q queue_next; index_loop item k t (i + 1) q')

unfoldable pub lock_index : Queue → (item : Ptr) → Cmd (ℤ × Queue)
unfolding lock unlock iterate index_loop
lock_index q item = do
  q₁ ← lock q
  (tmp, q₂) ← iterate q₁ queue_head
  (index, q₃) ← index_loop item (q.length + 1) tmp 0 q₂
  q₄ ← unlock q₃
  pure (index, q₄)

-- what the loop of fdmi_queue_remove does at the node that it looks for
unlink : (old cur next : Ptr) → Queue → Cmd Queue
unlink old cur next q = do
  set_next old next
  free cur
  pure (record q {
    tail = if q.tail == cur then old else q.tail;
    ite = if q.ite == cur then next else q.ite;
    length = q.length - 1;
  })

remove_loop : Ptr → ℕ → (old cur : Ptr) → Queue → Cmd Queue
remove_loop item zero old cur q = λ _. out_of_fuel
remove_loop item (suc k) old cur q = if cur == null then pure q else do
  n ← load cur
  if n.item == item then unlink old cur n.next q else remove_loop item k cur n.next q

-- the first node needs no predecessor
remove_head : (next : Ptr) → Queue → Cmd Queue
remove_head next q = do
  free q.head
  pure (record q {
    head = next;
    tail = if next == null then null else q.tail;
    ite = if next == null then null else q.ite;
    length = q.length - 1;
  })

unfoldable pub remove : Queue → (item : Ptr) → Cmd Queue
unfolding remove_loop remove_head unlink
remove q item = if q.head == null then pure q else do
  n ← load q.head
  if n.item == item then remove_head n.next q else remove_loop item (q.length + 1) q.head n.next q

unfoldable pub lock_remove : Queue → (item : Ptr) → Cmd Queue
unfolding lock unlock remove
lock_remove q item = do q₁ ← lock q; q₂ ← remove q₁ item; unlock q₂

destroy_loop : ℕ → Queue → Cmd Queue
unfolding deq
destroy_loop zero q = λ _. out_of_fuel
destroy_loop (suc k) q = do (item, q') ← deq q; if item == null then pure q' else destroy_loop k q'

-- The structure itself is given back to `malloc` at the end; it is not on the heap of nodes.
unfoldable pub destroy : Queue → Cmd Queue
unfolding destroy_loop
destroy q = destroy_loop (q.length + 1) q
