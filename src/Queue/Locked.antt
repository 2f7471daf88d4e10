-- ===== src/Queue/Locked.antt =====
-- The functions of the queue that take the mutex around another one.
use libibtl.Base.{◌≡◌, true}
use libibtl.Store.{Ptr, Heap, blocked, ◌>>=◌}
use libibtl.Queue.{Queue, lock, lock_enq, lock_deq, lock_remove, lock_index}

-- Each locking function waits without end where the caller holds the mutex already.
pub lock_blocked :
    (h : Heap) (q : Queue) (fresh item : Ptr)
    → q.mut ≡ true
    → (lock_enq fresh q item h ≡ blocked)
      × (lock_deq q h ≡ blocked)
      × (lock_remove q item h ≡ blocked)
      × (lock_index q item h ≡ blocked)
unfolding lock_enq lock_deq lock_remove lock_index lock
lock_blocked h q fresh item held =
    (rw (held, ◌>>=◌), rw (held, ◌>>=◌), rw (held, ◌>>=◌), rw (held, ◌>>=◌))
