-- ===== src/Engine/Transfer/Orders.antt =====
-- src/fdmi.c: an eager message and its receive, in both orders: fdmi_on_recv_cq_wc_recv and then
-- fdmi_post_recv_msg_param, or the other way round.
use libibtl.Base.{
  ◌≤◌, ◌≡◌, refl, ap, ◌∙◌, true, false, Option, none, some, [], ◌∷◌, ◌++◌, arith, ◌==◌, leb, inl,
}
use libibtl.Base.Int.{IsInt}
use libibtl.Store.{null}
use libibtl.Datatype.{scatter}
use libibtl.Engine.{
  eager, Mr, Connection, Query, Param, Engine, is_matched_query, is_matched_query2,
  get_matched_query, get_matched_query2, remove_query, set_request, remove_flag,
}
use libibtl.Engine.Queries.{Platform, create_query, destroy_query}
use libibtl.Engine.Post.{◌>>=◌, Accepts}
use libibtl.Engine.Recv.{
  complete, write_request, cpy_eager_buff, cpy_eager_buff2, deliver, arrive, repost,
  on_recv_cq_wc_recv, passive_query, init_passive_query, take, wait_for, receive,
  post_recv_msg_param,
}
use libibtl.Engine.Failure.{on_recv_cq_wc_recv-arrive}
use libibtl.Engine.Matching.{is_matched_query_symm}
use libibtl.Engine.Arrival.Returns.{Registered, AllRegistered, All-snoc, init_passive_query-some}
use libibtl.Engine.Arrival.Sound.{Usable}
use libibtl.Engine.Arrival.Sound.Calls.{init_passive_query-Usable}
use libibtl.Engine.Transfer.{
  Frame, Frame-trans, reg_mr-Frame, create_query-Frame, repost-Frame, get_matched_query2-snoc,
  get_matched_query-snoc, AwayFrom, remove_query-snoc,
}

-- The message is in the receive buffer, the request is complete, and all other requests, the memory
-- elsewhere, and the queues are as they were.
pub record Transferred (param : Param) (active : Query) (e e' : Engine) : Type 0 where
  pub memory :
      e'.memory ≡ scatter active.msg.eager_buff 0 param.dtype active.msg.count e.memory param.addr
  pub requests : e'.requests ≡ set_request param.request (complete active.msg) e.requests
  pub aq : e'.aq ≡ e.aq
  pub pq : e'.pq ≡ e.pq

-- An eager message that has come on a connection, in the current epoch, and a receive with a request:
-- they match each other and nothing that is queued, and their queries are not those in the queues.
pub record Pair (platform : Platform) (param : Param) (active : Query) (e : Engine) : Type 0 where
  pub is_eager : active.msg.opcode ≡ eager
  pub live : e.ft_epoch ≤ active.msg.epoch
  pub registered : Registered active
  pub requested : (param.request == null) ≡ false
  pub rank : IsInt param.rank
  pub tag : IsInt param.tag
  pub matches : is_matched_query2 e.ft_epoch param.rank param.tag param.comm_id active.msg ≡ true
  pub no_message : get_matched_query2 e.ft_epoch param.rank param.tag param.comm_id e.aq ≡ none
  pub no_receive : get_matched_query e.ft_epoch active e.pq ≡ none
  pub new_active : AwayFrom active.address e.aq
  pub new_passive : AwayFrom (create_query platform none e).0.address e.pq

unfoldable pub arrive_then_receive : Platform → Param → (active : Query) → Engine → Option Engine
arrive_then_receive platform param active e = do
  e' ← on_recv_cq_wc_recv platform active e
  post_recv_msg_param platform param e'

unfoldable pub receive_then_arrive : Platform → Param → (active : Query) → Engine → Option Engine
receive_then_arrive platform param active e = do
  e' ← post_recv_msg_param platform param e
  on_recv_cq_wc_recv platform active e'

-- The handler of an eager message that a waiting receive gets.
delivered :
    (platform : Platform) (active passive : Query) (c : Connection) (e : Engine)
    → active.conn ≡ some c
    → active.msg.opcode ≡ eager
    → Registered active
    → Registered passive
    → AllRegistered e
    → (passive.request == null) ≡ false
    → get_matched_query e.ft_epoch active e.pq ≡ some passive
    → Accepts platform
    → (e' : Engine) × (on_recv_cq_wc_recv platform active e ≡ some e')
      × (e'.memory
          ≡ scatter active.msg.eager_buff 0 passive.msg.dtype active.msg.count e.memory
              passive.msg.addr)
      × (e'.requests ≡ set_request passive.request (complete active.msg) e.requests)
      × (e'.aq ≡ e.aq)
      × (e'.pq ≡ remove_query passive.address e.pq)
unfolding arrive deliver cpy_eager_buff write_request destroy_query
delivered platform active passive c e at is_eager of_active of_passive all requested found accepts =
    let e₁ : Engine = record e {
      pq = remove_query passive.address e.pq;
      requests = set_request passive.request (complete active.msg) e.requests;
      memory =
          scatter active.msg.eager_buff 0 passive.msg.dtype active.msg.count e.memory
            passive.msg.addr;
      locked_request_sem_q = remove_flag passive.address e.locked_request_sem_q;
      free_query_q = (e.free_query_q ++ passive ∷ []) ++ active ∷ [];
    } in
    let (e', posted, f) =
      repost-Frame platform c e₁
        (All-snoc (e.free_query_q ++ passive ∷ []) active
          (All-snoc e.free_query_q passive all of_passive) of_active)
        accepts in
    let arrived : arrive platform active e (some passive) ≡ some e₁ =
      ap (deliver platform passive active (record e { pq = remove_query passive.address e.pq }))
        is_eager
      ∙ (rw (requested, ◌>>=◌) refl) in
    (
      e',
      on_recv_cq_wc_recv-arrive platform active e
          ∙ ap (λ o. arrive platform active e o >>= repost platform active.conn) found
          ∙ ap (λ o. o >>= repost platform active.conn) arrived
          ∙ ap (λ o. repost platform o e₁) at
          ∙ posted,
      f.memory,
      f.requests,
      f.aq,
      f.pq,
    )

module _ (platform : Platform) (param : Param) (active : Query) (c : Connection) (e : Engine)
    (at : active.conn ≡ some c) (usable : Usable e) (pair : Pair platform param active e)
    (accepts : Accepts platform) where
  -- the message is queued, and a receive is posted again
  queued :
      (e' : Engine) × (on_recv_cq_wc_recv platform active e ≡ some e')
      × Frame (record e { aq = e.aq ++ active ∷ [] }) e'
  unfolding arrive
  queued =
      let e₁ : Engine = record e { aq = e.aq ++ active ∷ [] } in
      let live : leb e.ft_epoch active.msg.epoch ≡ true = ground (arith, pair.live) in
      let (e', posted, f) = repost-Frame platform c e₁ usable.free accepts in
      (
        e',
        on_recv_cq_wc_recv-arrive platform active e
            ∙ (rw (pair.no_receive, live, ◌>>=◌) (ap (λ o. repost platform o e₁) at ∙ posted)),
        f,
      )

  pub arrive_first :
      (e' : Engine) × (arrive_then_receive platform param active e ≡ some e')
      × Transferred param active e e'
  unfolding arrive_then_receive post_recv_msg_param receive take cpy_eager_buff2 write_request
      destroy_query
  arrive_first =
      let (e₁, arrived, f) = queued in
      let found : get_matched_query2 e₁.ft_epoch param.rank param.tag param.comm_id e₁.aq
          ≡ some active =
        rw (f.ft_epoch, f.aq)
          (get_matched_query2-snoc e.ft_epoch param.rank param.tag param.comm_id e.aq active
            pair.no_message pair.matches) in
      (
        record e₁ {
          aq = remove_query active.address e₁.aq;
          requests = set_request param.request (complete active.msg) e₁.requests;
          memory =
              scatter active.msg.eager_buff 0 param.dtype active.msg.count e₁.memory param.addr;
          free_query_q = e₁.free_query_q ++ active ∷ [];
        },
        rw (arrived, ◌>>=◌, found, pair.is_eager, pair.requested) refl,
        record {
          memory =
              ap (λ m. scatter active.msg.eager_buff 0 param.dtype active.msg.count m param.addr)
                f.memory;
          requests = ap (set_request param.request (complete active.msg)) f.requests;
          aq =
              ap (remove_query active.address) f.aq ∙ remove_query-snoc active e.aq pair.new_active;
          pq = f.pq;
        },
      )

  init_passive_query-Frame : Frame e (init_passive_query platform param e).1
  unfolding init_passive_query
  init_passive_query-Frame =
      Frame-trans (create_query-Frame platform none e) (reg_mr-Frame platform _ _ _ _)

  created :
      (mr : Mr) × ((init_passive_query platform param e).0
        ≡ some (passive_query param (create_query platform none e).0 mr))
  created = init_passive_query-some platform param e accepts

  -- the receive, as it waits
  passive : Query
  passive =
      let q = passive_query param (create_query platform none e).0 created.0 in
      record q { msg = record (q.msg) { epoch = (init_passive_query platform param e).1.ft_epoch } }

  passive-matches : is_matched_query e.ft_epoch active.msg passive.msg ≡ true
  unfolding passive passive_query
  passive-matches =
      let f = init_passive_query-Frame in
      is_matched_query_symm e.ft_epoch param.rank param.tag active.msg passive.msg pair.rank
        pair.tag pair.live (omega (arith, f.ft_epoch)) refl refl
      ∙ pair.matches

  finds_passive :
      let e₁ = (init_passive_query platform param e).1 in
      get_matched_query e₁.ft_epoch active (e₁.pq ++ passive ∷ []) ≡ some passive
  finds_passive =
      let f = init_passive_query-Frame in
      rw (f.ft_epoch, f.pq)
        (get_matched_query-snoc e.ft_epoch active passive e.pq pair.no_receive passive-matches)

  pub receive_first :
      (e' : Engine) × (receive_then_arrive platform param active e ≡ some e')
      × Transferred param active e e'
  unfolding receive_then_arrive post_recv_msg_param receive wait_for passive passive_query
      create_query
  receive_first =
      let u = init_passive_query-Usable platform param e usable in
      let f = init_passive_query-Frame in
      let p = passive in
      let e₁ = (init_passive_query platform param e).1 in
      let e₂ : Engine = record e₁ { pq = e₁.pq ++ p ∷ [] } in
      let (e', taken, memory, requests, aq, pq) =
        delivered platform active p c e₂ at pair.is_eager pair.registered (inl refl) u.free
          pair.requested finds_passive accepts in
      (
        e',
        rw (pair.no_message, created.1, ◌>>=◌) taken,
        record {
          memory =
              memory
              ∙ ap (λ m. scatter active.msg.eager_buff 0 param.dtype active.msg.count m param.addr)
                  f.memory;
          requests = requests ∙ ap (set_request param.request (complete active.msg)) f.requests;
          aq = aq ∙ f.aq;
          pq =
              pq
              ∙ ap (λ qs. remove_query p.address (qs ++ p ∷ [])) f.pq
              ∙ remove_query-snoc p e.pq pair.new_passive;
        },
      )
