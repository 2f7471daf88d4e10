-- ===== src/Engine/Arrival/Sound/Run.antt =====
-- src/fdmi.c: any sequence of the calls of an application and of completions that the poller takes.
use libibtl.Base.{◌≡◌, refl, Option, none, some, List, [], ◌∷◌, ◌++◌}
use libibtl.Base.Int.{ℤ, IsInt}
use libibtl.Store.{Ptr}
use libibtl.Datatype.{reg_size}
use libibtl.ProcMan.{Communicator, get_prank}
use libibtl.Engine.{Connection, Query, Param, Engine}
use libibtl.Engine.Queries.{Platform, reg_mr, create_query}
use libibtl.Engine.Post.{◌>>=◌, Accepts}
use libibtl.Engine.Send.{WcOpcode, poll_sendrecv_cq, post_send_msg_param}
use libibtl.Engine.Api.{lower_flag, isend, irecv}
use libibtl.Engine.Matching.{All}
use libibtl.Engine.Arrival.Frame.{
  Keeps-trans, KeepsIf, KeepsIf-bind, KeepsIf-trans, KeepsIf-option, reg_mr-Keeps,
  create_query-Keeps, post_send_msg-Keeps, write_request-Keeps,
}
use libibtl.Engine.Arrival.Settled.{
  Settled, SettledIf, KeepsIf-Settled, post_recv_msg_param-SettledIf,
}
use libibtl.Engine.Arrival.Returns.{Connected, Leaves, Leaves-bind}
use libibtl.Engine.Arrival.Sound.{NonNull, Usable}
use libibtl.Engine.Arrival.Sound.Ready.{Ready, Leaves-both}
use libibtl.Engine.Arrival.Sound.Poll.{poll_sendrecv_cq-Leaves}
use libibtl.Engine.Arrival.Sound.Calls.{isend-Usable, irecv-Usable}

-- a call, or a completion with the query that it names
pub data Operation : Type 0 where
  isend_call : (prank : ℤ) (conn : Option Connection) → Param → Operation
  irecv_call : Communicator → (vsource : ℤ) → Param → Operation
  completion : (itop : Ptr → ℤ) → WcOpcode → Query → Operation

unfoldable pub perform : Platform → Operation → Engine → Option Engine
perform platform (isend_call prank conn param) e = isend platform prank conn param e
perform platform (irecv_call comm vsource param) e = irecv platform comm vsource param e
perform platform (completion itop opcode q) e = poll_sendrecv_cq platform itop opcode q e

unfoldable pub perform_all : Platform → List Operation → Engine → Option Engine
unfolding perform
perform_all platform [] e = some e
perform_all platform (operation ∷ operations) e = do
  e' ← perform platform operation e
  perform_all platform operations e'

-- A call has a request; a send goes to a connected rank, a receive names a rank of the communicator and a
-- tag that are values of `int`; a completion is of a query that is what it should be for its kind.
abbrev pub Allowed : Operation → Type 0
Allowed (isend_call prank conn param) = ((c : Connection) × (conn ≡ some c)) × NonNull param.request
Allowed (irecv_call comm vsource param) =
    ((source : ℤ) × (get_prank comm vsource ≡ some source) × IsInt source)
    × IsInt param.tag
    × NonNull param.request
Allowed (completion itop opcode q) = Connected q × Ready opcode q.msg.type q

post_send_msg_param-Keeps :
    (platform : Platform) (prank : ℤ) (conn : Option Connection) (param : Param) (e : Engine)
    → KeepsIf e (post_send_msg_param platform prank conn param e)
unfolding post_send_msg_param
post_send_msg_param-Keeps platform prank conn param e = KeepsIf-option e conn _ (λ c.
    let (registered, e') =
      reg_mr platform param.addr (reg_size param.dtype param.count) c.pd
        (create_query platform conn e).1 in
    KeepsIf-trans e e' _
      (Keeps-trans (create_query-Keeps platform conn e)
        (reg_mr-Keeps platform param.addr (reg_size param.dtype param.count) c.pd _))
      (KeepsIf-option e' registered _ (λ mr. post_send_msg-Keeps platform _ e')))

lower_flag-Keeps : (p : Ptr) (e : Engine) → KeepsIf e (lower_flag p e)
unfolding lower_flag
lower_flag-Keeps p e = write_request-Keeps p _ e

isend-Keeps :
    (platform : Platform) (prank : ℤ) (conn : Option Connection) (param : Param) (e : Engine)
    → KeepsIf e (isend platform prank conn param e)
unfolding isend
isend-Keeps platform prank conn param e =
    let e₁ : Engine = record e { send_req_q = e.send_req_q ++ param.request ∷ [] } in
    KeepsIf-bind e (lower_flag param.request e₁) _
      (KeepsIf-bind e (some e₁) (lower_flag param.request)
        (record { aq = refl; pq = refl; ft_epoch = refl })
        (λ e'. lower_flag-Keeps param.request e'))
      (λ e'. post_send_msg_param-Keeps platform prank conn param e')

SettledIf-then :
    (o : Option Engine) (f : Engine → Option Engine)
    → SettledIf o
    → ((e : Engine) → Settled e → SettledIf (f e))
    → SettledIf (o >>= f)
SettledIf-then none f s next = tt
SettledIf-then (some e) f s next = next e s

irecv-SettledIf :
    (platform : Platform) (comm : Communicator) (vsource source : ℤ) (param : Param) (e : Engine)
    → get_prank comm vsource ≡ some source
    → IsInt source
    → IsInt param.tag
    → Settled e
    → SettledIf (irecv platform comm vsource param e)
unfolding irecv
irecv-SettledIf platform comm vsource source param e found hr ht s =
    rw (found, ◌>>=◌)
      (SettledIf-then (lower_flag param.request e) _
        (KeepsIf-Settled e (lower_flag param.request e) (lower_flag-Keeps param.request e) s)
        (λ e' s'. post_recv_msg_param-SettledIf platform _ e' hr ht s'))

perform-Leaves :
    (platform : Platform) (operation : Operation) (e : Engine)
    → Allowed operation
    → Usable e × Settled e
    → Accepts platform
    → Leaves (λ e'. Usable e' × Settled e') (perform platform operation e)
unfolding perform
perform-Leaves platform (isend_call prank conn param) e ((c, at), requested) (u, s) accepts =
    Leaves-both _ (isend-Usable platform accepts prank conn c param e at requested u)
      (KeepsIf-Settled e _ (isend-Keeps platform prank conn param e) s)
perform-Leaves platform (irecv_call comm vsource param) e ((source, found, hr), ht, requested)
      (u, s) accepts =
    Leaves-both _ (irecv-Usable platform accepts comm vsource source param e found requested u)
      (irecv-SettledIf platform comm vsource source param e found hr ht s)
perform-Leaves platform (completion itop opcode q) e (conn, ready) (u, s) accepts =
    poll_sendrecv_cq-Leaves platform itop opcode q e conn ready u s accepts

-- Let the network card take all that is posted to it, and each registration of memory succeed. However an
-- application's sends and receives and the completions of the card follow one another, none ends the
-- process, and the queues stay in order: the queries in them can be used again, no waiting receive
-- matches a waiting message, and every waiting message is of the current epoch. Each call has a request,
-- a send goes to a connected rank, a receive names a rank of the communicator and a tag that are
-- values of `int`, and each completion is of a query as it was posted for its kind: registered, with
-- its request or with the message that it answers.
pub perform_all-Leaves :
    (platform : Platform) (operations : List Operation) (e : Engine)
    → All Allowed operations
    → Usable e × Settled e
    → Accepts platform
    → Leaves (λ e'. Usable e' × Settled e') (perform_all platform operations e)
unfolding perform_all
perform_all-Leaves platform [] e allowed sound accepts = sound
perform_all-Leaves platform (operation ∷ operations) e (first, rest) sound accepts =
    Leaves-bind (λ e'. Usable e' × Settled e') (λ e'. Usable e' × Settled e')
      (perform platform operation e) _ (perform-Leaves platform operation e first sound accepts)
      (λ e' sound'. perform_all-Leaves platform operations e' rest sound' accepts)
