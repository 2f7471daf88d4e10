-- ===== src/Engine/Linked/Queues.antt =====
-- Two linked queues that hold the queries of two lists: removals and additions.
use libibtl.Base.{
  ◌≡◌, refl, ◌≢◌, ap, Bool, Bool-cases, none, some, inl, inr, List, [], ◌∷◌, ◌++◌, arith, ◌==◌,
}
use libibtl.Store.{Ptr, null, Heap}
use libibtl.Store.Cells.{Cells, has, Linked-frame, SameOutside, has_of_none, has-append, ne-has}
use libibtl.Store.Returns
use libibtl.Store.Returns.{Returns}
use libibtl.Queue.{Queue, enq, remove}
use libibtl.Queue.Holds.{Holds, enq-Holds}
use libibtl.Queue.Remove.{erase, has-erase, Removes, remove-Removes}
use libibtl.Queue.Search.{drop_entry, PointTo-erase, PointTo-snoc}
use libibtl.Engine.{Query, remove_query}
use libibtl.Engine.Linked.{Messages, entries, Apart, Both, Holding}

-- the mutex and the iterator are no part of what a queue holds
pub Holds-aside :
    (h : Heap) (q : Queue) (cs : Cells) (ite : Ptr) (mut : Bool)
    → Holds h q cs
    → Holds h (record q { ite = ite; mut = mut }) cs
Holds-aside h q cs ite mut holds = record {
  head = holds.head;
  tail = holds.tail;
  length = holds.length;
  linked = holds.linked;
}

-- writes to one queue leave the other as it is
pub Holds-frame :
    (h g : Heap) (q : Queue) (cs ds : Cells)
    → Apart cs ds
    → SameOutside ds h g
    → Holds h q cs
    → Holds g q cs
Holds-frame h g q cs ds apart same holds = record {
  head = holds.head;
  tail = holds.tail;
  length = holds.length;
  linked = Linked-frame h g cs holds.linked (λ a i. same a (apart a i));
}

pub Apart-symm : (cs ds : Cells) → Apart cs ds → Apart ds cs
Apart-symm cs ds apart a i = elim (Bool-cases (has a cs)) [
  | inl inside ↦ (let out = apart a inside in cc)
  | inr out ↦ out
]

pub Both-symm :
    (store : Messages) (h : Heap) (aq pq : Queue) (acs pcs : Cells) (aqs pqs : List Query)
    → Both store h aq pq acs pcs aqs pqs
    → Both store h pq aq pcs acs pqs aqs
Both-symm store h aq pq acs pcs aqs pqs b = record {
  aq_holds = b.pq_holds;
  aq_points = b.pq_points;
  pq_holds = b.aq_holds;
  pq_points = b.aq_points;
  apart = Apart-symm acs pcs b.apart;
}

drop_entry-entries :
    (p : Ptr) (qs : List Query) → drop_entry p (entries qs) ≡ entries (remove_query p qs)
unfolding drop_entry entries remove_query
drop_entry-entries p [] = refl
drop_entry-entries p (q ∷ qs) = elim (Bool-cases (q.address == p)) [
  | inl hit ↦ rw hit refl
  | inr miss ↦ rw miss (ap (λ es. (q.address, q.msg) ∷ es) (drop_entry-entries p qs))
]

entries-snoc :
    (q : Query) (qs : List Query) → entries (qs ++ q ∷ []) ≡ entries qs ++ (q.address, q.msg) ∷ []
unfolding entries
entries-snoc q [] = refl
entries-snoc q (p ∷ qs) = ap (λ es. (p.address, p.msg) ∷ es) (entries-snoc q qs)

module _ (store : Messages) (h : Heap) (aq pq : Queue) (acs pcs : Cells) (aqs pqs : List Query)
    (b : Both store h aq pq acs pcs aqs pqs) where
  -- a removal from the second queue
  pub Both-remove :
      (p : Ptr) → Returns (Holding store aq acs aqs (remove_query p pqs) pq.mut) (remove pq p h)
  Both-remove p =
      Returns.mono (Removes p h pcs pq) _ _ (remove-Removes p h pq pcs b.pq_holds) (λ pq' g r. (
        erase p pcs,
        record {
          aq_holds = Holds-frame h g aq acs pcs b.apart r.same b.aq_holds;
          aq_points = b.aq_points;
          pq_holds = r.holds;
          pq_points = rw (← drop_entry-entries p pqs) (PointTo-erase store p pcs _ b.pq_points);
          apart = λ a i. has-erase a p pcs (b.apart a i);
        },
        r.mut,
      ))

  -- an addition to it
  pub Both-enq :
      (fresh : Ptr) (q : Query)
      → fresh ≢ null
      → h fresh ≡ none
      → q.address ≢ null
      → store q.address ≡ some q.msg
      → Returns (Holding store aq acs aqs (pqs ++ q ∷ []) pq.mut) (enq fresh pq q.address h)
  Both-enq fresh q nn unused non_null at =
      let pcs' = pcs ++ (fresh, q.address) ∷ [] in
      let out_as = has_of_none h fresh acs b.aq_holds.linked unused in
      let apart' : Apart acs pcs' = λ a i.
        let ne = ne-has fresh a acs out_as i in
        let out = b.apart a i in rw has-append (ground (arith, ne, out)) in
      Returns.mono _ (Holding store aq acs aqs (pqs ++ q ∷ []) pq.mut) _
        (enq-Holds h pq pcs fresh q.address b.pq_holds nn unused)
        (λ pq' g r. (
          pcs',
          record {
            aq_holds = Holds-frame h g aq acs pcs' apart' r.3 b.aq_holds;
            aq_points = b.aq_points;
            pq_holds = r.0;
            pq_points =
                rw (entries-snoc q pqs)
                  (PointTo-snoc store pcs _ fresh q.address q.msg b.pq_points non_null at);
            apart = apart';
          },
          r.2,
        ))

pub Both-aside :
    (store : Messages) (h : Heap) (aq pq : Queue) (acs pcs : Cells) (aqs pqs : List Query)
    (aq_ite pq_ite : Ptr) (aq_mut pq_mut : Bool)
    → Both store h aq pq acs pcs aqs pqs
    → Both store h
        (record aq { ite = aq_ite; mut = aq_mut })
        (record pq { ite = pq_ite; mut = pq_mut })
        acs
        pcs
        aqs
        pqs
Both-aside store h aq pq acs pcs aqs pqs aq_ite pq_ite aq_mut pq_mut b = record {
  aq_holds = Holds-aside h aq acs aq_ite aq_mut b.aq_holds;
  aq_points = b.aq_points;
  pq_holds = Holds-aside h pq pcs pq_ite pq_mut b.pq_holds;
  pq_points = b.pq_points;
  apart = b.apart;
}
