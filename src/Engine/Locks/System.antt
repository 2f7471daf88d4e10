-- ===== src/Engine/Locks/System.antt =====
-- The threads of src/fdmi.c as far as they take and release mutexes, in any interleaving.
use libibtl.Base.{
  ℕ, Bool, true, false, Option, none, some, List, [], ◌∷◌, ◌==◌, ◌||◌, ◌&&◌, if◌then◌else◌,
  get_elem?, set,
}
use libibtl.Engine.Locks.{
  Mutex, aq, pq, free_query_q, reg_mr_q, locked_request_sem_q, send_req_q, failed_prank_q,
  disconnected_prank_q, Action, acquire, release, EngineCall, locks_of_all,
}

infixl 5 ◌>>=◌
abbrev pub ◌>>=◌ {ℓ κ} : {A : Type ℓ} {B : Type κ} → Option A → (A → Option B) → Option B
none >>= f = none
some a >>= f = f a

-- the place of a mutex in the order in which they are nested
abbrev pub place : Mutex → ℕ
place aq = 0
place pq = 1
place free_query_q = 2
place reg_mr_q = 3
place locked_request_sem_q = 4
place send_req_q = 5
place failed_prank_q = 6
place disconnected_prank_q = 7

abbrev pub same : Mutex → Mutex → Bool
same a b = place a == place b

-- The mutexes that a thread has, latest first, and what it still does.
pub record Thread : Type 0 where
  pub held : List Mutex
  pub actions : List Action

abbrev pub has : Mutex → List Mutex → Bool
has m [] = false
has m (x ∷ held) = same x m || has m held

abbrev pub without : Mutex → List Mutex → List Mutex
without m [] = []
without m (x ∷ held) = if same x m then held else x ∷ without m held

abbrev pub is_taken : Mutex → List Thread → Bool
is_taken m [] = false
is_taken m (t ∷ ts) = has m t.held || is_taken m ts

-- The next action of a thread: pthread_mutex_lock waits while the mutex is taken, by the thread itself
-- too, and only the thread that has a mutex may unlock it.
unfoldable pub act : List Thread → Thread → List Action → Option Thread
act threads t [] = none
act threads t (acquire m ∷ actions) =
    if is_taken m threads then none else some (record { held = m ∷ t.held; actions = actions })
act threads t (release m ∷ actions) =
    if has m t.held then some (record { held = without m t.held; actions = actions }) else none

-- the thread `i` is scheduled
unfoldable pub step : ℕ → List Thread → Option (List Thread)
unfolding act
step i threads = do t ← get_elem? threads i; t' ← act threads t t.actions; some (set threads i t')

unfoldable pub run : (schedule : List ℕ) → List Thread → Option (List Thread)
unfolding step
run [] threads = some threads
run (i ∷ schedule) threads = do threads' ← step i threads; run schedule threads'

abbrev pub is_done : List Action → Bool
is_done [] = true
is_done (a ∷ actions) = false

abbrev pub all_done : List Thread → Bool
all_done [] = true
all_done (t ∷ ts) = is_done t.actions && all_done ts

-- threads that begin, each with the calls that it makes
unfoldable pub start : List (List EngineCall) → List Thread
unfolding locks_of_all
start [] = []
start (calls ∷ programs) = record { held = []; actions = locks_of_all calls } ∷ start programs
