-- ===== src/Engine/Linked.antt =====
-- src/fdmi.c on the linked queues of src/fdmi_queue.c: the two queues of messages and receives, with
-- the mutexes, the iterator and the nodes, where Engine has lists of queries. A query is found behind
-- the pointer in a node; `store` has the messages of the queries that are allocated.
pub mod Queues
pub mod Found
pub mod Arrive
pub mod Waiting
pub mod Receive
pub mod Flush
use libibtl.Base.{
  ℕ, ◌≡◌, refl, ◌≢◌, sym, ap, ◌∙◌, Bool, true, false, Bool-cases, Option, none, some, inl, inr,
  List, [], ◌∷◌, ◌++◌, arith, ◌==◌, ◌||◌, if◌then◌else◌, leb,
}
use libibtl.Base.Int.{ℤ}
use libibtl.Store.{Ptr, null, Heap, Cmd, pure, ◌>>=◌}
use libibtl.Store.Cells.{
  Cells, has, Linked, Linked-frame, SameOutside, has_of_none, has-append, ne-has,
}
use libibtl.Store.Returns
use libibtl.Store.Returns.{Returns}
use libibtl.Queue.{Queue, lock, unlock, enq, remove}
use libibtl.Queue.Holds.{Holds, enq-Holds}
use libibtl.Queue.Remove.{erase, has-erase, Removes, remove-Removes}
use libibtl.Queue.Search.{search, Entries, PointTo, found, drop_entry, PointTo-erase, PointTo-snoc}
use libibtl.Engine.{Msg, Query, Param, Engine, is_matched_query, is_matched_query2, remove_query}

-- struct fdmi_query_qp
pub record QueryQp : Type 0 where
  pub aq : Queue
  pub pq : Queue

abbrev pub Messages : Type 0
Messages = Ptr → Option Msg

-- the branches behind the search of fdmi_on_recv_cq_wc_recv
unfoldable pub file_active :
    (fresh : Ptr) (ft_epoch : ℕ) (active : Query) (matched : Ptr)
    → Queue
    → Queue
    → Cmd (Queue × Queue)
file_active fresh ft_epoch active matched aq pq =
    if matched == null
    then (if leb ft_epoch active.msg.epoch
        then (do aq' ← enq fresh aq active.address; pure (aq', pq))
        else pure (aq, pq))
    else (do pq' ← remove pq matched; pure (aq, pq'))

-- fdmi_on_recv_cq_wc_recv, what it does under the two mutexes; the result is the receive that it
-- found, or NULL
unfoldable pub arrive_linked :
    (fresh : Ptr) (ft_epoch : ℕ) → Messages → (active : Query) → QueryQp → Cmd (Ptr × QueryQp)
unfolding lock unlock file_active
arrive_linked fresh ft_epoch store active qp = do
  aq₁ ← lock qp.aq
  pq₁ ← lock qp.pq
  (matched, pq₂) ← search store (λ m. is_matched_query ft_epoch active.msg m) pq₁
  (aq₃, pq₃) ← file_active fresh ft_epoch active matched aq₁ pq₂
  aq₄ ← unlock aq₃
  pq₄ ← unlock pq₃
  pure (matched, record { aq = aq₄; pq = pq₄ })

-- the branches behind the search of fdmi_post_recv_msg_param, as far as they are about the queues
unfoldable pub file_passive :
    (fresh : Ptr) (passive matched : Ptr) → Queue → Queue → Cmd (Queue × Queue)
file_passive fresh passive matched aq pq =
    if matched == null
    then (do pq' ← enq fresh pq passive; pure (aq, pq'))
    else (do aq' ← remove aq matched; pure (aq', pq))

-- fdmi_post_recv_msg_param, what it does to the queues; `passive` is the query that it enters where no
-- message has come, and the result the message that it found, or NULL
unfoldable pub receive_linked :
    (fresh : Ptr) (ft_epoch : ℕ)
    → Messages
    → Param
    → (passive : Ptr) → QueryQp
    → Cmd (Ptr × QueryQp)
unfolding lock unlock file_passive
receive_linked fresh ft_epoch store param passive qp = do
  aq₁ ← lock qp.aq
  pq₁ ← lock qp.pq
  (matched, aq₂) ←
      search store (λ m. is_matched_query2 ft_epoch param.rank param.tag param.comm_id m) aq₁
  (aq₃, pq₃) ← file_passive fresh passive matched aq₂ pq₁
  pq₄ ← unlock pq₃
  aq₄ ← unlock aq₃
  pure (matched, record { aq = aq₄; pq = pq₄ })

-- the queries of a list, with their messages
unfoldable pub entries : List Query → Entries Msg
entries [] = []
entries (q ∷ qs) = (q.address, q.msg) ∷ entries qs

-- no node is in both queues
abbrev pub Apart : Cells → Cells → Type 0
Apart cs ds = (a : Ptr) → has a cs ≡ true → has a ds ≡ false

-- two linked queues that hold the queries of two lists
pub record Both (store : Messages) (h : Heap) (aq pq : Queue) (acs pcs : Cells)
    (aqs pqs : List Query) : Type 0 where
  pub aq_holds : Holds h aq acs
  pub aq_points : PointTo store acs (entries aqs)
  pub pq_holds : Holds h pq pcs
  pub pq_points : PointTo store pcs (entries pqs)
  pub apart : Apart acs pcs

-- the two queues of an engine, neither of them locked
unfoldable pub IsQp : Messages → Heap → QueryQp → Engine → Type 0
IsQp store h qp e =
    (acs : Cells) × (pcs : Cells) × Both store h (qp.aq) (qp.pq) acs pcs e.aq e.pq
    × (qp.aq.mut ≡ false)
    × (qp.pq.mut ≡ false)

-- the second queue after an operation on it: the first one is as it was
abbrev pub Holding :
    Messages
    → (aq : Queue) → Cells
    → (aqs pqs : List Query) → (mut : Bool) → (pq : Queue) → Heap
    → Type 0
Holding store aq acs aqs pqs mut pq g =
    (pcs : Cells) × Both store g aq pq acs pcs aqs pqs × (pq.mut ≡ mut)

-- what a search returns
unfoldable pub address_or_null : Option Query → Ptr
address_or_null none = null
address_or_null (some q) = q.address
