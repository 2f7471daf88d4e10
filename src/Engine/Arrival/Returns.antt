-- ===== src/Engine/Arrival/Returns.antt =====
-- Whether the steps that touch the two queues of src/fdmi.c end the process.
use libibtl.Base.{
  ℕ, ◌≡◌, refl, sym, subst, ◌⊎◌, Bool, true, false, Option, none, some, List, [], ◌∷◌, ◌++◌, arith,
  ◌==◌, leb, Bool-cases, Option-cases, inl, inr, some_inj,
}
use libibtl.Base.Int.{IsInt}
use libibtl.Datatype.{reg_size}
use libibtl.Store.{Ptr, null}
use libibtl.Engine.{
  Opcode, eager, rdma_read, loop, Connection, Mr, Query, Param, Engine, is_matched_query,
  is_matched_query2, get_matched_query, remove_query,
}
use libibtl.Engine.Queries.{
  Platform, reg_mr, find_reusable, is_reusable, take_query, reg_msg, create_query, destroy_query,
}
use libibtl.Engine.Post.{
  ◌>>=◌, post_send, post_recv, post_recv_msg, post_rdma_read, Accepts, reg_mr-some,
}
use libibtl.Engine.Recv.{
  is_discarded, write_request, cpy_eager_buff, cpy_eager_buff2, deliver, arrive, repost,
  on_recv_cq_wc_recv, passive_query, init_passive_query, take, wait_for, receive,
  post_recv_msg_param,
}
use libibtl.Engine.Matching.{All, IsFirst, get_matched_query-IsFirst, get_matched_query2-IsFirst}
use libibtl.Engine.Arrival.Settled.{
  Settled, SettledIf, on_recv_cq_wc_recv-SettledIf, post_recv_msg_param-SettledIf,
}

-- a query with a connection has its message registered
abbrev pub Registered : Query → Type 0
Registered q = (q.conn ≡ none) ⊎ ((mr : Mr) × (q.msg_mr ≡ some mr))

-- a receive that waits: its request is there
abbrev pub Waiting : Query → Type 0
Waiting p = ((p.request == null) ≡ false) × Registered p

abbrev pub Connected : Query → Type 0
Connected a = (c : Connection) × (a.conn ≡ some c)

-- a step that does not end the process, and leaves the engine in a state with `P`
abbrev pub Leaves : (Engine → Type 0) → Option Engine → Type 0
Leaves P none = ⊥
Leaves P (some e) = P e

abbrev pub AllRegistered : Engine → Type 0
AllRegistered e = All Registered e.free_query_q

pub All-snoc :
    (qs : List Query) (q : Query) → All Registered qs → Registered q → All Registered (qs ++ q ∷ [])
All-snoc [] q all r = (r, tt)
All-snoc (p ∷ qs) q all r = (all.0, All-snoc qs q all.1 r)

has_mr :
    (q : Query) (c : Connection)
    → Registered q
    → is_reusable q.conn (some c) ≡ true
    → (mr : Mr) × (q.msg_mr ≡ some mr)
unfolding is_reusable
has_mr q c (inl without) hit =
    (let no : is_reusable none (some c) ≡ true =
        subst (λ o. is_reusable o (some c) ≡ true) without hit in
      cc)
has_mr q c (inr mr) hit = mr

pub find_reusable-Registered :
    (c : Connection) (qs : List Query) (q : Query)
    → All Registered qs
    → find_reusable (some c) qs ≡ some q
    → (mr : Mr) × (q.msg_mr ≡ some mr)
unfolding find_reusable
find_reusable-Registered c [] q all e = cc
find_reusable-Registered c (p ∷ qs) q all e = elim (Bool-cases (is_reusable p.conn (some c))) [
  | inl hit ↦
      let same : some p ≡ some q = rw hit at e in
      subst (λ o. (mr : Mr) × (o.msg_mr ≡ some mr)) (some_inj same) (has_mr p c all.0 hit)
  | inr miss ↦ find_reusable-Registered c qs q all.1 (rw miss at e)
]

repost-Leaves :
    (platform : Platform) (conn : Option Connection) (c : Connection) (e : Engine)
    → conn ≡ some c
    → AllRegistered e
    → Accepts platform
    → Leaves (λ _. Unit) (repost platform conn e)
unfolding repost create_query take_query reg_msg post_recv_msg post_recv
repost-Leaves platform conn c e at all accepts =
    rw at (elim (Option-cases (find_reusable (some c) e.free_query_q)) [
      | inl new ↦
          let (mr, got) =
            reg_mr-some platform (platform.fresh_query e).msg_address platform.sizeof_msg c.pd e
              accepts in
          rw (new, got, ◌>>=◌, accepts.receives) tt
      | inr (q, free) ↦
          let (mr, has) = find_reusable-Registered c e.free_query_q q all free in
          rw (free, ◌>>=◌, has, accepts.receives) tt
    ])

pub reg_mr-free_query_q :
    (platform : Platform) (addr size : ℕ) (pd : Ptr) (e : Engine)
    → (reg_mr platform addr size pd e).1.free_query_q ≡ e.free_query_q
unfolding reg_mr
reg_mr-free_query_q platform addr size pd e = ground arith

post_rdma_read-Leaves :
    (platform : Platform) (passive active : Query) (e : Engine) (c : Connection)
    → active.conn ≡ some c
    → AllRegistered e
    → Accepts platform
    → Leaves AllRegistered (post_rdma_read platform passive active e)
unfolding post_rdma_read post_send
post_rdma_read-Leaves platform passive active e c at all accepts =
    let (mr, got) = reg_mr-some platform passive.msg_address platform.sizeof_msg c.pd e accepts in
    rw (at, ◌>>=◌, got, accepts.sends)
      (subst (All Registered)
        (sym (reg_mr-free_query_q platform passive.msg_address platform.sizeof_msg c.pd e)) all)

deliver-Leaves :
    (platform : Platform) (passive active : Query) (e : Engine) (c : Connection) (opcode : Opcode)
    → Waiting passive
    → active.conn ≡ some c
    → Registered active
    → AllRegistered e
    → Accepts platform
    → Leaves AllRegistered (deliver platform passive active e opcode)
unfolding deliver cpy_eager_buff write_request destroy_query
deliver-Leaves platform passive active e c eager w at r all accepts =
    rw (w.0, ◌>>=◌)
      (All-snoc (e.free_query_q ++ passive ∷ []) active (All-snoc e.free_query_q passive all w.1) r)
deliver-Leaves platform passive active e c rdma_read w at r all accepts =
    post_rdma_read-Leaves platform _ active e c at all accepts
deliver-Leaves platform passive active e c loop w at r all accepts = all

All-at :
    (P : Query → Type 0) (before : List Query) (q : Query) (after : List Query)
    → All P (before ++ q ∷ after)
    → P q
All-at P [] q after h = h.0
All-at P (p ∷ before) q after h = All-at P before q after h.1

pub IsFirst-All :
    (P : Query → Type 0) (t : Query → Bool) (queue : List Query) (q : Query)
    → IsFirst t queue (some q)
    → All P queue
    → P q
IsFirst-All P t queue q (before, after, e, _, _) all = All-at P before q after (subst (All P) e all)

arrive-Leaves :
    (platform : Platform) (active : Query) (e : Engine) (c : Connection) (o : Option Query)
    → IsFirst (λ p. is_matched_query e.ft_epoch active.msg p.msg) e.pq o
    → All Waiting e.pq
    → active.conn ≡ some c
    → Registered active
    → AllRegistered e
    → Accepts platform
    → Leaves AllRegistered (arrive platform active e o)
unfolding arrive
arrive-Leaves platform active e c (some passive) first w at r all accepts =
    deliver-Leaves platform passive active (record e { pq = remove_query passive.address e.pq }) c
      active.msg.opcode (IsFirst-All Waiting _ e.pq passive first w) at r all accepts
arrive-Leaves platform active e c none misses w at r all accepts =
    elim (Bool-cases (leb e.ft_epoch active.msg.epoch)) [
      | inl live ↦ rw live all
      | inr stale ↦ rw stale all
    ]

pub Leaves-bind :
    (P Q : Engine → Type 0) (o : Option Engine) (f : Engine → Option Engine)
    → Leaves P o
    → ((e : Engine) → P e → Leaves Q (f e))
    → Leaves Q (o >>= f)
Leaves-bind P Q none f l h = l
Leaves-bind P Q (some e) f l h = h e l

-- The end of both steps: what holds if the process goes on does hold.
Leaves-Settled : (o : Option Engine) → Leaves (λ _. Unit) o → SettledIf o → Leaves Settled o
Leaves-Settled none l s = l
Leaves-Settled (some e) l s = s

-- Let the network card take all that is posted to it, and each registration of memory succeed. Then the
-- arrival of a message, on a connection, does not end the process, and where no waiting receive
-- matched a waiting message, none does afterwards, and the waiting messages are still of the current
-- epoch. The waiting receives have requests, and queries with a connection are registered, in the
-- free list too.
pub on_recv_cq_wc_recv-Settled :
    (platform : Platform) (active : Query) (e : Engine) (c : Connection)
    → active.conn ≡ some c
    → Registered active
    → All Waiting e.pq
    → AllRegistered e
    → Settled e
    → Accepts platform
    → Leaves Settled (on_recv_cq_wc_recv platform active e)
unfolding on_recv_cq_wc_recv
on_recv_cq_wc_recv-Settled platform active e c at r w all s accepts =
    Leaves-Settled _
      (elim (Bool-cases (is_discarded e.fdmi_state active.msg.op)) [
        | inl gone ↦ rw gone tt
        | inr kept ↦ rw kept (
            Leaves-bind AllRegistered _
              (arrive platform active e (get_matched_query e.ft_epoch active e.pq)) _
              (arrive-Leaves platform active e c _
                (get_matched_query-IsFirst e.ft_epoch active e.pq) w at r all accepts)
              (λ e' all'. repost-Leaves platform active.conn c e' at all' accepts))
      ])
      (on_recv_cq_wc_recv-SettledIf platform active e s)

pub init_passive_query-some :
    (platform : Platform) (param : Param) (e : Engine)
    → Accepts platform
    → (mr : Mr) × ((init_passive_query platform param e).0
        ≡ some (passive_query param (create_query platform none e).0 mr))
unfolding init_passive_query
init_passive_query-some platform param e accepts =
    let e₁ = (create_query platform none e).1 in
    let (mr, got) =
      reg_mr-some platform param.addr (reg_size param.dtype param.count) platform.domain_pd e₁
        accepts in
    (mr, rw (init_passive_query, got) refl)

take-Leaves :
    (platform : Platform) (param : Param) (active : Query) (e : Engine) (opcode : Opcode)
    → (param.request == null) ≡ false
    → Connected active
    → Accepts platform
    → Leaves (λ _. Unit) (take platform param active e opcode)
unfolding take cpy_eager_buff2 write_request post_rdma_read post_send passive_query
take-Leaves platform param active e eager nn (c, at) accepts = rw (nn, ◌>>=◌) tt
take-Leaves platform param active e rdma_read nn (c, at) accepts =
    let (mr, made) = init_passive_query-some platform param e accepts in
    let (mr', got) =
      reg_mr-some platform (create_query platform none e).0.msg_address platform.sizeof_msg c.pd
        (init_passive_query platform param e).1 accepts in
    rw (made, at, ◌>>=◌, got, accepts.sends) tt
take-Leaves platform param active e loop nn (c, at) accepts = tt

receive-Leaves :
    (platform : Platform) (param : Param) (e : Engine) (o : Option Query)
    → (param.request == null) ≡ false
    → IsFirst (λ a. is_matched_query2 e.ft_epoch param.rank param.tag param.comm_id a.msg) e.aq o
    → All Connected e.aq
    → Accepts platform
    → Leaves (λ _. Unit) (receive platform param e o)
unfolding receive wait_for
receive-Leaves platform param e (some active) nn first all accepts =
    take-Leaves platform param active (record e { aq = remove_query active.address e.aq })
      active.msg.opcode nn (IsFirst-All Connected _ e.aq active first all) accepts
receive-Leaves platform param e none nn first all accepts =
    let (q, made) = init_passive_query-some platform param e accepts in rw (made, ◌>>=◌) tt

-- Let the network card take all that is posted to it, and each registration of memory succeed. Then the
-- post of a receive, with a request and with a rank and a tag that are values of `int`, does not end the
-- process, and where no waiting receive matched a waiting message, none does afterwards, and
-- the waiting messages are still of the current epoch. The waiting messages have come on
-- connections.
pub post_recv_msg_param-Settled :
    (platform : Platform) (param : Param) (e : Engine)
    → IsInt param.rank
    → IsInt param.tag
    → (param.request == null) ≡ false
    → All Connected e.aq
    → Settled e
    → Accepts platform
    → Leaves Settled (post_recv_msg_param platform param e)
unfolding post_recv_msg_param
post_recv_msg_param-Settled platform param e hr ht nn all s accepts =
    Leaves-Settled _
      (receive-Leaves platform param e _ nn
        (get_matched_query2-IsFirst e.ft_epoch param.rank param.tag param.comm_id e.aq) all accepts)
      (post_recv_msg_param-SettledIf platform param e hr ht s)
