-- ===== src/Engine/Linked/Flush.antt =====
-- fdmi_flush_query_qp on the linked queues does what it does on the lists.
use libibtl.Base.{
  ◌≡◌, refl, ap, ◌∙◌, Bool, true, false, Bool-cases, inl, inr, List, [], ◌∷◌, ◌++◌, append_assoc,
  ◌==◌, if◌then◌else◌,
}
use Prim.Native.Nat.{bit_and}
use libibtl.Store.{Ptr, Heap, Cmd, pure, ◌>>=◌}
use libibtl.Store.Cells.{Cells}
use libibtl.Store.Returns
use libibtl.Store.Returns.{Returns}
use libibtl.Queue.{Queue, lock, unlock}
use libibtl.Queue.Filter.{filter, kept, dropped_items}
use libibtl.Queue.Filter.Kept.{filter-Kept}
use libibtl.Engine.{Msg, Query, Engine}
use libibtl.Engine.Send.{fdmi_presv, is_preserved, flush_query_qp}
use libibtl.Engine.Flush.{Distinct, preserved, dropped, flush_query_qp-preserved}
use libibtl.Engine.Linked.{QueryQp, Messages, entries, Both, IsQp}
use libibtl.Engine.Linked.Queues.{Apart-symm, Holds-frame, Both-aside, Both-symm}

-- the test of the loops
unfoldable pub is_kept : Msg → Bool
is_kept m = if bit_and m.op fdmi_presv == 0 then false else true

-- fdmi_flush_query_qp; the result has the queries that it destroys, in order
unfoldable pub flush_linked : Messages → QueryQp → Cmd (List Ptr × QueryQp)
unfolding lock unlock is_kept
flush_linked store qp = do
  aq₁ ← lock qp.aq
  pq₁ ← lock qp.pq
  (aq₂, from_aq) ← filter store is_kept aq₁
  (pq₂, from_pq) ← filter store is_kept pq₁
  aq₃ ← unlock aq₂
  pq₃ ← unlock pq₂
  pure (from_aq ++ from_pq, record { aq = aq₃; pq = pq₃ })

unfoldable pub addresses : List Query → List Ptr
addresses [] = []
addresses (q ∷ qs) = q.address ∷ addresses qs

addresses-append : (qs rs : List Query) → addresses (qs ++ rs) ≡ addresses qs ++ addresses rs
unfolding addresses
addresses-append [] rs = refl
addresses-append (q ∷ qs) rs = ap (λ l. q.address ∷ l) (addresses-append qs rs)

free-destroyed :
    (free from_aq from_pq : List Query)
    → addresses ((free ++ from_aq) ++ from_pq)
      ≡ addresses free ++ (addresses from_aq ++ addresses from_pq)
free-destroyed free from_aq from_pq =
    addresses-append (free ++ from_aq) from_pq
    ∙ ap (λ l. l ++ addresses from_pq) (addresses-append free from_aq)
    ∙ append_assoc (addresses free) (addresses from_aq) (addresses from_pq)

kept-entries : (qs : List Query) → kept is_kept (entries qs) ≡ entries (preserved qs)
unfolding kept entries is_preserved is_kept
kept-entries [] = refl
kept-entries (q ∷ qs) = elim (Bool-cases (bit_and q.msg.op fdmi_presv == 0)) [
  | inl gone ↦ rw gone (kept-entries qs)
  | inr keep ↦ rw keep (ap (λ l. (q.address, q.msg) ∷ l) (kept-entries qs))
]

dropped_items-entries :
    (qs : List Query) → dropped_items is_kept (entries qs) ≡ addresses (dropped qs)
unfolding dropped_items entries is_preserved is_kept addresses
dropped_items-entries [] = refl
dropped_items-entries (q ∷ qs) = elim (Bool-cases (bit_and q.msg.op fdmi_presv == 0)) [
  | inl gone ↦ rw gone (ap (λ l. q.address ∷ l) (dropped_items-entries qs))
  | inr keep ↦ rw keep (dropped_items-entries qs)
]

-- the first queue after the loop over it: the second one is as it was
abbrev Flushed :
    Messages → (pq : Queue) → Cells → (aqs pqs : List Query) → Queue × List Ptr → Heap → Type 0
Flushed store pq pcs aqs pqs (aq, removed) g =
    (acs : Cells) × Both store g aq pq acs pcs (preserved aqs) pqs
    × (removed ≡ addresses (dropped aqs))

filter-Flushed :
    (store : Messages) (h : Heap) (aq pq : Queue) (acs pcs : Cells) (aqs pqs : List Query)
    → Both store h aq pq acs pcs aqs pqs
    → Returns (Flushed store pq pcs aqs pqs) (filter store is_kept aq h)
filter-Flushed store h aq pq acs pcs aqs pqs b =
    let apart = Apart-symm acs pcs b.apart in
    Returns.mono _ (Flushed store pq pcs aqs pqs) _
      (filter-Kept store is_kept h aq acs (entries aqs) b.aq_holds b.aq_points)
      (λ result g r. (
        r.cells,
        record {
          aq_holds = r.holds;
          aq_points = rw (← kept-entries aqs) r.points;
          pq_holds = Holds-frame h g pq pcs acs apart r.same b.pq_holds;
          pq_points = b.pq_points;
          apart = Apart-symm pcs r.cells (λ a i. r.within a (apart a i));
        },
        r.same_removed ∙ dropped_items-entries aqs,
      ))

-- Let two linked queues hold the waiting messages and receives of an engine, and neither be locked,
-- and let no query be twice in a list. Then the two loops of a flush, which remove nodes from the
-- queues while they iterate over them, end without a fault, leave queues that hold those of the engine
-- after the flush, unlocked, and destroy the queries that the engine's free list gets, in that order.
pub flush_linked-flush_query_qp :
    (store : Messages) (h : Heap) (qp : QueryQp) (e : Engine)
    → IsQp store h qp e
    → Distinct e.aq
    → Distinct e.pq
    → Returns
        (λ (destroyed, qp') g.
          IsQp store g qp' (flush_query_qp e)
          × (addresses (flush_query_qp e).free_query_q ≡ addresses e.free_query_q ++ destroyed))
        (flush_linked store qp h)
unfolding flush_linked lock unlock IsQp
flush_linked-flush_query_qp store h qp e (acs, pcs, b, aq_free, pq_free) da dp =
    let aq : Queue = record (qp.aq) { mut = true } in
    let pq : Queue = record (qp.pq) { mut = true } in
    let (in_aq, in_pq, in_free) = flush_query_qp-preserved e da dp in
    let locked = Both-aside store h qp.aq qp.pq acs pcs e.aq e.pq qp.aq.ite qp.pq.ite true true b in
    rw (aq_free, pq_free, ◌>>=◌)
      (Returns.bind (Flushed store pq pcs e.aq e.pq) _ (filter store is_kept aq h) _
        (filter-Flushed store h aq pq acs pcs e.aq e.pq locked)
        (λ (aq₂, from_aq) g₁ (acs₂, b₁, of_aq).
          Returns.bind (Flushed store aq₂ acs₂ e.pq (preserved e.aq)) _ (filter store is_kept pq g₁)
            _
            (filter-Flushed store g₁ pq aq₂ pcs acs₂ e.pq (preserved e.aq)
              (Both-symm store g₁ aq₂ pq acs₂ pcs (preserved e.aq) e.pq b₁))
            (λ (pq₂, from_pq) g₂ (pcs₂, b₂, of_pq). (
              (
                acs₂,
                pcs₂,
                rw (in_aq, in_pq)
                    (Both-aside store g₂ aq₂ pq₂ acs₂ pcs₂ (preserved e.aq) (preserved e.pq) aq₂.ite
                      pq₂.ite false false
                      (Both-symm store g₂ pq₂ aq₂ pcs₂ acs₂ (preserved e.pq) (preserved e.aq) b₂)),
                refl,
                refl,
              ),
              rw (in_free, of_aq, of_pq)
                  (free-destroyed e.free_query_q (dropped e.aq) (dropped e.pq)),
            ))))
