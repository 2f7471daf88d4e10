-- ===== src/Engine/Arrival/Frame.antt =====
-- What the steps of the engine leave alone: the two queues and the epoch.
use libibtl.Base.{ℕ, ◌≡◌, refl, ◌∙◌, Option, none, some, arith, leb, Bool-cases, inl, inr}
use libibtl.Store.{Ptr}
use libibtl.Engine.{
  Work, recv_posted, Opcode, eager, rdma_read, loop, Connection, Query, Request, Param, Engine,
}
use libibtl.Engine.Queries.{
  Platform, reg_mr, reg_msg, find_reusable, take_query, create_query, destroy_query,
}
use libibtl.Engine.Post.{
  ◌>>=◌, post_send, post_recv, post_recv_msg, post_send_msg, post_rdma_read, total_send_size,
  eager_buff_size,
}
use libibtl.Engine.Recv.{
  write_request, cpy_eager_buff, cpy_eager_buff2, deliver, repost, init_passive_query, take,
}

pub record Keeps (e e' : Engine) : Type 0 where
  pub aq : e'.aq ≡ e.aq
  pub pq : e'.pq ≡ e.pq
  pub ft_epoch : e'.ft_epoch ≡ e.ft_epoch

pub Keeps-refl : (e : Engine) → Keeps e e
Keeps-refl e = record { aq = refl; pq = refl; ft_epoch = refl }

pub Keeps-trans : {a b c : Engine} → Keeps a b → Keeps b c → Keeps a c
Keeps-trans k l = record { aq = l.aq ∙ k.aq; pq = l.pq ∙ k.pq; ft_epoch = l.ft_epoch ∙ k.ft_epoch }

-- a step that ends the process keeps nothing to be asked about
abbrev pub KeepsIf : Engine → Option Engine → Type 0
KeepsIf e none = Unit
KeepsIf e (some e') = Keeps e e'

pub KeepsIf-bind :
    (e : Engine) (m : Option Engine) (f : Engine → Option Engine)
    → KeepsIf e m
    → ((e' : Engine) → KeepsIf e' (f e'))
    → KeepsIf e (m >>= f)
KeepsIf-bind e none f k next = tt
KeepsIf-bind e (some e') f k next = after (f e') (next e')
  where
    after : (o : Option Engine) → KeepsIf e' o → KeepsIf e o
    after none l = tt
    after (some e'') l = Keeps-trans k l

pub KeepsIf-option {ℓ} :
    {A : Type ℓ} (e : Engine) (o : Option A) (f : A → Option Engine)
    → ((a : A) → KeepsIf e (f a))
    → KeepsIf e (o >>= f)
KeepsIf-option e none f all = tt
KeepsIf-option e (some a) f all = all a

pub KeepsIf-trans : (e e' : Engine) (o : Option Engine) → Keeps e e' → KeepsIf e' o → KeepsIf e o
KeepsIf-trans e e' none k l = tt
KeepsIf-trans e e' (some e'') k l = Keeps-trans k l

pub reg_mr-Keeps :
    (platform : Platform) (addr size : ℕ) (pd : Ptr) (e : Engine)
    → Keeps e (reg_mr platform addr size pd e).1
unfolding reg_mr
reg_mr-Keeps platform addr size pd e = ground arith

pub destroy_query-Keeps : (q : Query) (e : Engine) → Keeps e (destroy_query q e)
unfolding destroy_query
destroy_query-Keeps q e = record { aq = refl; pq = refl; ft_epoch = refl }

reg_msg-Keeps :
    (platform : Platform) (conn : Option Connection) (q : Query) (e : Engine)
    → Keeps e (reg_msg platform conn q e).1
unfolding reg_msg
reg_msg-Keeps platform none q e = Keeps-refl e
reg_msg-Keeps platform (some c) q e = reg_mr-Keeps platform _ _ c.pd e

take_query-Keeps :
    (platform : Platform) (conn : Option Connection) (e : Engine) (o : Option Query)
    → Keeps e (take_query platform conn e o).1
unfolding take_query
take_query-Keeps platform conn e (some q) = record { aq = refl; pq = refl; ft_epoch = refl }
take_query-Keeps platform conn e none = reg_msg-Keeps platform conn _ e

pub create_query-Keeps :
    (platform : Platform) (conn : Option Connection) (e : Engine)
    → Keeps e (create_query platform conn e).1
unfolding create_query
create_query-Keeps platform conn e =
    take_query-Keeps platform conn e (find_reusable conn e.free_query_q)

pub init_passive_query-Keeps :
    (platform : Platform) (param : Param) (e : Engine)
    → Keeps e (init_passive_query platform param e).1
unfolding init_passive_query
init_passive_query-Keeps platform param e =
    Keeps-trans (create_query-Keeps platform none e) (reg_mr-Keeps platform _ _ _ _)

post_send-Keeps :
    (platform : Platform) (work : Work) (e : Engine) → KeepsIf e (post_send platform work e)
unfolding post_send
post_send-Keeps platform work e = ground arith

post_recv-Keeps :
    (platform : Platform) (work : Work) (e : Engine) → KeepsIf e (post_recv platform work e)
unfolding post_recv
post_recv-Keeps platform work e = ground arith

post_recv_msg-Keeps :
    (platform : Platform) (q : Query) (e : Engine) → KeepsIf e (post_recv_msg platform q e)
unfolding post_recv_msg
post_recv_msg-Keeps platform q e =
    KeepsIf-option e q.conn _
      (λ c. KeepsIf-option e q.msg_mr _ (λ mr. post_recv-Keeps platform (recv_posted c q) e))

pub repost-Keeps :
    (platform : Platform) (conn : Option Connection) (e : Engine)
    → KeepsIf e (repost platform conn e)
unfolding repost
repost-Keeps platform conn e =
    let (q, e') = create_query platform conn e in
    KeepsIf-bind e (some e') (post_recv_msg platform q) (create_query-Keeps platform conn e)
      (post_recv_msg-Keeps platform q)

pub post_send_msg-Keeps :
    (platform : Platform) (q : Query) (e : Engine) → KeepsIf e (post_send_msg platform q e)
unfolding post_send_msg
post_send_msg-Keeps platform q e = KeepsIf-option e q.conn _ (λ c.
    KeepsIf-option e q.msg_mr _ (λ mr.
      elim (Bool-cases (leb (total_send_size q.msg) eager_buff_size)) [
        | inl small ↦ rw small (post_send-Keeps platform _ e)
        | inr large ↦ rw large (post_send-Keeps platform _ e)
      ]))

pub post_rdma_read-Keeps :
    (platform : Platform) (passive active : Query) (e : Engine)
    → KeepsIf e (post_rdma_read platform passive active e)
unfolding post_rdma_read
post_rdma_read-Keeps platform passive active e = KeepsIf-option e active.conn _ (λ c.
    let (registered, e') = reg_mr platform passive.msg_address platform.sizeof_msg c.pd e in
    KeepsIf-trans e e' _ (reg_mr-Keeps platform passive.msg_address platform.sizeof_msg c.pd e)
      (KeepsIf-option e' registered _ (λ mr. post_send-Keeps platform _ e')))

pub write_request-Keeps : (p : Ptr) (r : Request) (e : Engine) → KeepsIf e (write_request p r e)
unfolding write_request
write_request-Keeps p r e = ground arith

cpy_eager_buff-Keeps :
    (passive active : Query) (e : Engine) → KeepsIf e (cpy_eager_buff passive active e)
unfolding cpy_eager_buff destroy_query
cpy_eager_buff-Keeps passive active e = ground arith

pub cpy_eager_buff2-Keeps :
    (param : Param) (active : Query) (e : Engine) → KeepsIf e (cpy_eager_buff2 param active e)
unfolding cpy_eager_buff2 destroy_query
cpy_eager_buff2-Keeps param active e = ground arith

pub deliver-Keeps :
    (platform : Platform) (passive active : Query) (e : Engine) (opcode : Opcode)
    → KeepsIf e (deliver platform passive active e opcode)
unfolding deliver
deliver-Keeps platform passive active e eager = cpy_eager_buff-Keeps passive active e
deliver-Keeps platform passive active e rdma_read = post_rdma_read-Keeps platform _ active e
deliver-Keeps platform passive active e loop = Keeps-refl e

pub take-Keeps :
    (platform : Platform) (param : Param) (active : Query) (e : Engine) (opcode : Opcode)
    → KeepsIf e (take platform param active e opcode)
unfolding take
take-Keeps platform param active e eager = cpy_eager_buff2-Keeps param active e
take-Keeps platform param active e rdma_read =
    let (created, e') = init_passive_query platform param e in
    KeepsIf-trans e e' _ (init_passive_query-Keeps platform param e)
      (KeepsIf-option e' created _ (λ passive. post_rdma_read-Keeps platform _ active e'))
take-Keeps platform param active e loop = Keeps-refl e
