-- ===== src/Engine/Linked/Arrive.antt =====
-- fdmi_on_recv_cq_wc_recv on the linked queues does what it does on the lists.
use libibtl.Base.{
  ◌≡◌, refl, ◌≢◌, subst, true, false, Bool-cases, Option, none, some, some_inj, inl, inr, [], ◌∷◌,
  ◌++◌, leb,
}
use libibtl.Store.{Ptr, null, Heap, ◌>>=◌}
use libibtl.Store.Cells.{Cells, not_null}
use libibtl.Store.Returns
use libibtl.Store.Returns.{Returns}
use libibtl.Queue.{Queue, enq, remove, lock, unlock}
use libibtl.Engine.{Query, Engine, get_matched_query, remove_query}
use libibtl.Engine.Queries.{Platform}
use libibtl.Engine.Recv.{arrive}
use libibtl.Engine.Arrival.Frame.{KeepsIf, deliver-Keeps}
use libibtl.Engine.Linked.{
  QueryQp, Messages, file_active, arrive_linked, Both, IsQp, address_or_null, Holding,
}
use libibtl.Engine.Linked.Queues.{Holds-aside, Both-aside, Both-symm, Both-remove, Both-enq}
use libibtl.Engine.Linked.Found.{NotNull, get_matched_query-NotNull, search-get_matched_query}

-- the two queues before they are unlocked
abbrev pub Filed : Messages → Engine → Queue × Queue → Heap → Type 0
Filed store e (aq, pq) g = (acs : Cells) × (pcs : Cells) × Both store g aq pq acs pcs e.aq e.pq

file_active-Filed :
    (platform : Platform) (fresh : Ptr) (active : Query) (store : Messages) (h : Heap)
    (aq pq : Queue) (acs pcs : Cells) (e : Engine) (o : Option Query) {e' : Engine}
    → Both store h aq pq acs pcs e.aq e.pq
    → fresh ≢ null
    → h fresh ≡ none
    → active.address ≢ null
    → store active.address ≡ some active.msg
    → NotNull o
    → arrive platform active e o ≡ some e'
    → Returns (Filed store e') (file_active fresh e.ft_epoch active (address_or_null o) aq pq h)
unfolding file_active arrive address_or_null
file_active-Filed platform fresh active store h aq pq acs pcs e none {e'} b nn unused non_null at
      found ran =
    elim (Bool-cases (leb e.ft_epoch active.msg.epoch)) [
      | inl live ↦
          let is : record e { aq = e.aq ++ active ∷ [] } ≡ e' = some_inj (rw live at ran) in
          rw live (
            Returns.bind (Holding store pq pcs e.pq (e.aq ++ active ∷ []) aq.mut) (Filed store e')
              (enq fresh aq active.address h) _
              (Both-enq store h pq aq pcs acs e.pq e.aq (Both-symm store h aq pq acs pcs _ _ b)
                fresh active nn unused non_null at)
              (λ aq' g (acs', b', _).
                subst (λ x. Filed store x (aq', pq) g) is
                  (acs', pcs, Both-symm store g pq aq' pcs acs' _ _ b')))
      | inr stale ↦
          let is : e ≡ e' = some_inj (rw stale at ran) in
          rw stale (subst (λ x. Filed store x (aq, pq) h) is (acs, pcs, b))
    ]
file_active-Filed platform fresh active store h aq pq acs pcs e (some passive) {e'} b nn unused
      non_null at found ran =
    let kept = subst (KeepsIf (record e { pq = remove_query passive.address e.pq })) ran (
      deliver-Keeps platform passive active (record e { pq = remove_query passive.address e.pq })
        active.msg.opcode) in
    rw (not_null passive.address found) (
      Returns.bind (Holding store aq acs e.aq (remove_query passive.address e.pq) pq.mut)
        (Filed store e') (remove pq passive.address h) _
        (Both-remove store h aq pq acs pcs e.aq e.pq b passive.address)
        (λ pq' g (pcs', b', _). (acs, pcs', rw (kept.aq, kept.pq) b')))

-- Let two linked queues hold the waiting messages and receives of an engine, and neither be locked, let
-- the query that arrives be allocated, and let malloc() give an address that is free and not NULL.
-- Where the handler of an arriving message does not end the process, what it does to the linked queues
-- under their mutexes ends without a fault, finds the receive that it finds in the list, and
-- leaves queues that hold those of the engine afterwards, unlocked.
pub arrive_linked-arrive :
    (platform : Platform) (fresh : Ptr) (active : Query) (store : Messages) (h : Heap)
    (qp : QueryQp) (e : Engine) {e' : Engine}
    → IsQp store h qp e
    → fresh ≢ null
    → h fresh ≡ none
    → active.address ≢ null
    → store active.address ≡ some active.msg
    → arrive platform active e (get_matched_query e.ft_epoch active e.pq) ≡ some e'
    → Returns
        (λ (matched, qp') g.
          (matched ≡ address_or_null (get_matched_query e.ft_epoch active e.pq))
          × IsQp store g qp' e')
        (arrive_linked fresh e.ft_epoch store active qp h)
unfolding arrive_linked lock unlock IsQp
arrive_linked-arrive platform fresh active store h qp e {e'} (acs, pcs, b, aq_free, pq_free) nn
      unused non_null at ran =
    let aq : Queue = record (qp.aq) { mut = true } in
    let pq : Queue = record (qp.pq) { mut = true } in
    let (ite, run) =
      search-get_matched_query store e.ft_epoch active h pq pcs e.pq
        (Holds-aside h qp.pq pcs qp.pq.ite true b.pq_holds) b.pq_points in
    let locked = Both-aside store h qp.aq qp.pq acs pcs e.aq e.pq qp.aq.ite ite true true b in
    rw (aq_free, pq_free, ◌>>=◌, run)
      (Returns.bind (Filed store e') _
        (file_active fresh e.ft_epoch active
          (address_or_null (get_matched_query e.ft_epoch active e.pq)) aq (record pq { ite = ite })
          h)
        _
        (file_active-Filed platform fresh active store h aq (record pq { ite = ite }) acs pcs e
          (get_matched_query e.ft_epoch active e.pq) locked nn unused non_null at
          (get_matched_query-NotNull store e.ft_epoch active pcs e.pq b.pq_points) ran)
        (λ (aq', pq') g (acs', pcs', b'). (
          refl,
          (
            acs',
            pcs',
            Both-aside store g aq' pq' acs' pcs' e'.aq e'.pq aq'.ite pq'.ite false false b',
            refl,
            refl,
          ),
        )))
