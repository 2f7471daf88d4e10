-- ===== src/Engine/Transfer/Acknowledge.antt =====
-- src/fdmi.c, fdmi_on_send_cq_wc_recv: which request an acknowledgement completes.
use libibtl.Base.{
  ◌≡◌, ◌≢◌, refl, ap, subst, ◌∙◌, true, false, Option, none, some, List, ◌∷◌, arith, ◌==◌,
}
use libibtl.Store.{Ptr}
use libibtl.Engine.{Connection, Active, Query, Engine, set_request}
use libibtl.Engine.Queries.{Platform, destroy_query, as_query}
use libibtl.Engine.Post.{◌>>=◌, Accepts}
use libibtl.Engine.Recv.{write_request, repost}
use libibtl.Engine.Send.{raise_flag, destroy_active, acknowledge, on_send_cq_wc_recv}
use libibtl.Engine.Failure.{is_discarded_never}
use libibtl.Engine.Matching.{All}
use libibtl.Engine.Arrival.Returns.{Registered, AllRegistered, All-snoc}
use libibtl.Engine.Arrival.Sound.{NonNull, Usable}
use libibtl.Engine.Transfer.{Frame, repost-Frame}

-- the message that the query answers, if it has one, is registered
abbrev pub AnswersRegistered : Option Active → Type 0
AnswersRegistered none = Unit
AnswersRegistered (some a) = Registered (as_query a)

destroy_active-AllRegistered :
    (o : Option Active) (e : Engine)
    → AnswersRegistered o
    → AllRegistered e
    → AllRegistered (destroy_active o e)
unfolding destroy_active destroy_query
destroy_active-AllRegistered none e r all = all
destroy_active-AllRegistered (some a) e r all = All-snoc e.free_query_q (as_query a) all r

destroyed-Frame :
    (o : Option Active) (q : Query) (e : Engine) → Frame e (destroy_query q (destroy_active o e))
unfolding destroy_query destroy_active
destroyed-Frame none q e = record {
  aq = refl;
  pq = refl;
  ft_epoch = refl;
  memory = refl;
  requests = refl;
  send_req_q = refl;
}
destroyed-Frame (some a) q e = record {
  aq = refl;
  pq = refl;
  ft_epoch = refl;
  memory = refl;
  requests = refl;
  send_req_q = refl;
}

-- Let the network card take what is posted and the registration of memory succeed. The acknowledgement of
-- a message, whichever it is: where a request waits, the handler does not end
-- the process, raises the flag of the request that waits longest, and of no other, and takes it from
-- the queue.
pub on_send_cq_wc_recv-oldest :
    (platform : Platform) (q : Query) (c : Connection) (oldest : Ptr) (others : List Ptr)
    (e : Engine)
    → q.conn ≡ some c
    → Registered q
    → AnswersRegistered q.active_query_to_free
    → Usable e
    → e.send_req_q ≡ oldest ∷ others
    → Accepts platform
    → (e' : Engine) × (on_send_cq_wc_recv platform q e ≡ some e')
      × ((e'.requests oldest).request_flag ≡ true)
      × ((p : Ptr) → p ≢ oldest → e'.requests p ≡ e.requests p)
      × (e'.send_req_q ≡ others)
unfolding on_send_cq_wc_recv acknowledge raise_flag write_request set_request destroy_query
on_send_cq_wc_recv-oldest platform q c oldest others e at of_q of_answered u waiting accepts =
    let (requested, _) : All NonNull (oldest ∷ others) = subst (All NonNull) waiting u.sending in
    let e₁ : Engine = record e {
      send_req_q = others;
      requests = set_request oldest (record (e.requests oldest) { request_flag = true }) e.requests;
    } in
    let e₂ = destroy_query q (destroy_active q.active_query_to_free e₁) in
    let all =
      All-snoc _ q (destroy_active-AllRegistered q.active_query_to_free e₁ of_answered u.free)
        of_q in
    let (e', posted, f) = repost-Frame platform c e₂ all accepts in
    let g = destroyed-Frame q.active_query_to_free q e₁ in
    let own : (oldest == oldest) ≡ true = ground arith in
    (
      e',
      rw (is_discarded_never e.fdmi_state q.msg.op, waiting, requested, ◌>>=◌)
          (ap (λ o. repost platform o e₂) at ∙ posted),
      ap (λ r. (r oldest).request_flag) (f.requests ∙ g.requests) ∙ (rw own refl),
      λ p other.
          let miss : (p == oldest) ≡ false = ground (arith, other) in
          ap (λ r. r p) (f.requests ∙ g.requests) ∙ (rw miss refl),
      f.send_req_q ∙ g.send_req_q,
    )
