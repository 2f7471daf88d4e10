-- ===== src/Engine/Linked/Receive.antt =====
-- fdmi_post_recv_msg_param on the linked queues does what it does on the lists.
use libibtl.Base.{◌≡◌, refl, sym, ◌∙◌, ◌≢◌, subst, true, false, Option, none, some, [], ◌∷◌, ◌++◌}
use libibtl.Store.{Ptr, null, Heap, ◌>>=◌}
use libibtl.Store.Cells.{Cells, not_null}
use libibtl.Store.Returns
use libibtl.Store.Returns.{Returns}
use libibtl.Queue.{Queue, enq, remove, lock, unlock}
use libibtl.Engine.{Query, Param, Engine, get_matched_query2, remove_query}
use libibtl.Engine.Queries.{Platform}
use libibtl.Engine.Recv.{wait_for, receive, post_recv_msg_param}
use libibtl.Engine.Arrival.Frame.{KeepsIf, take-Keeps}
use libibtl.Engine.Linked.{
  QueryQp, Messages, file_passive, receive_linked, Both, IsQp, address_or_null, Holding,
}
use libibtl.Engine.Linked.Arrive.{Filed}
use libibtl.Engine.Linked.Waiting.{waiting, wait_for-Waits}
use libibtl.Engine.Linked.Queues.{Holds-aside, Both-aside, Both-symm, Both-remove, Both-enq}
use libibtl.Engine.Linked.Found.{NotNull, get_matched_query2-NotNull, search-get_matched_query2}

-- the query that waits is allocated
abbrev pub Allocated : Messages → (passive : Ptr) → Option Query → Type 0
Allocated store passive none = Unit
Allocated store passive (some q) =
    (q.address ≡ passive) × (passive ≢ null) × (store passive ≡ some q.msg)

-- a query that waits is at the back of the linked queue
wait_for-Filed :
    (platform : Platform) (fresh passive : Ptr) (param : Param) (store : Messages) (h : Heap)
    (aq pq : Queue) (acs pcs : Cells) (e : Engine) {e' : Engine}
    → Both store h aq pq acs pcs e.aq e.pq
    → fresh ≢ null
    → h fresh ≡ none
    → Allocated store passive (waiting platform param e)
    → wait_for platform param e ≡ some e'
    → Returns (λ pq'. Filed store e' (aq, pq')) (enq fresh pq passive h)
wait_for-Filed platform fresh passive param store h aq pq acs pcs e {e'} b nn unused alloc ran =
    let (q, is, waits) = wait_for-Waits platform param e ran in
    let (at, non_null, found) = subst (Allocated store passive) is alloc in
    Returns.mono (Holding store aq acs e.aq (e.pq ++ q ∷ []) pq.mut) _ (enq fresh pq passive h)
      (subst (λ a. Returns (Holding store aq acs e.aq (e.pq ++ q ∷ []) pq.mut) (enq fresh pq a h))
        at
        (Both-enq store h aq pq acs pcs e.aq e.pq b fresh q nn unused
          (λ is_null. non_null (sym at ∙ is_null))
          (subst (λ x. store x ≡ some q.msg) (sym at) found)))
      (λ pq' g (pcs', b', _). (acs, pcs', rw (waits.aq, waits.pq) b'))

file_passive-Filed :
    (platform : Platform) (fresh passive : Ptr) (param : Param) (store : Messages) (h : Heap)
    (aq pq : Queue) (acs pcs : Cells) (e : Engine) (o : Option Query) {e' : Engine}
    → Both store h aq pq acs pcs e.aq e.pq
    → fresh ≢ null
    → h fresh ≡ none
    → Allocated store passive (waiting platform param e)
    → NotNull o
    → receive platform param e o ≡ some e'
    → Returns (Filed store e') (file_passive fresh passive (address_or_null o) aq pq h)
unfolding file_passive receive address_or_null
file_passive-Filed platform fresh passive param store h aq pq acs pcs e none {e'} b nn unused alloc
      found ran =
    Returns.bind (λ pq'. Filed store e' (aq, pq')) (Filed store e') (enq fresh pq passive h) _
      (wait_for-Filed platform fresh passive param store h aq pq acs pcs e b nn unused alloc ran)
      (λ pq' g filed. filed)
file_passive-Filed platform fresh passive param store h aq pq acs pcs e (some active) {e'} b nn
      unused alloc found ran =
    let kept = subst (KeepsIf (record e { aq = remove_query active.address e.aq })) ran (
      take-Keeps platform param active (record e { aq = remove_query active.address e.aq })
        active.msg.opcode) in
    rw (not_null active.address found) (
      Returns.bind (Holding store pq pcs e.pq (remove_query active.address e.aq) aq.mut)
        (Filed store e') (remove aq active.address h) _
        (Both-remove store h pq aq pcs acs e.pq e.aq (Both-symm store h aq pq acs pcs _ _ b)
          active.address)
        (λ aq' g (acs', b', _).
          (acs', pcs, rw (kept.aq, kept.pq) (Both-symm store g pq aq' pcs acs' _ _ b'))))

-- Let two linked queues hold the waiting messages and receives of an engine, and neither be locked, let
-- the query of the receive, where there is one, be allocated, and let malloc() give an address that is free and not NULL.
-- Where posting a receive does not end the process, what it does to the linked queues under their
-- mutexes ends without a fault, finds the message that it finds in the list, and leaves queues that
-- hold those of the engine afterwards, unlocked.
pub receive_linked-receive :
    (platform : Platform) (fresh passive : Ptr) (param : Param) (store : Messages) (h : Heap)
    (qp : QueryQp) (e : Engine) {e' : Engine}
    → IsQp store h qp e
    → fresh ≢ null
    → h fresh ≡ none
    → Allocated store passive (waiting platform param e)
    → post_recv_msg_param platform param e ≡ some e'
    → Returns
        (λ (matched, qp') g.
          (matched
            ≡ address_or_null
                (get_matched_query2 e.ft_epoch param.rank param.tag param.comm_id e.aq))
          × IsQp store g qp' e')
        (receive_linked fresh e.ft_epoch store param passive qp h)
unfolding receive_linked lock unlock IsQp post_recv_msg_param
receive_linked-receive platform fresh passive param store h qp e {e'}
      (acs, pcs, b, aq_free, pq_free) nn unused alloc ran =
    let aq : Queue = record (qp.aq) { mut = true } in
    let pq : Queue = record (qp.pq) { mut = true } in
    let matched = get_matched_query2 e.ft_epoch param.rank param.tag param.comm_id e.aq in
    let (ite, run) =
      search-get_matched_query2 store e.ft_epoch param.rank param.tag param.comm_id h aq acs e.aq
        (Holds-aside h qp.aq acs qp.aq.ite true b.aq_holds) b.aq_points in
    let locked = Both-aside store h qp.aq qp.pq acs pcs e.aq e.pq ite qp.pq.ite true true b in
    rw (aq_free, pq_free, ◌>>=◌, run)
      (Returns.bind (Filed store e') _
        (file_passive fresh passive (address_or_null matched) (record aq { ite = ite }) pq h) _
        (file_passive-Filed platform fresh passive param store h (record aq { ite = ite }) pq acs
          pcs e matched locked nn unused alloc
          (get_matched_query2-NotNull store e.ft_epoch param.rank param.tag param.comm_id acs e.aq
            b.aq_points)
          ran)
        (λ (aq', pq') g (acs', pcs', b'). (
          refl,
          (
            acs',
            pcs',
            Both-aside store g aq' pq' acs' pcs' e'.aq e'.pq aq'.ite pq'.ite false false b',
            refl,
            refl,
          ),
        )))
