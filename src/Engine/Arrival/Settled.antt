-- ===== src/Engine/Arrival/Settled.antt =====
-- The invariant of the two queues, and that the steps which touch them keep it.
use libibtl.Base.{
  Option-cases, ℕ, ◌≤◌, ◌≡◌, refl, ◌∙◌, false, Option, none, some, List, [], ◌∷◌, ◌++◌, arith, ◌==◌,
  leb, leb→le, Bool-cases, inl, inr,
}
use libibtl.Base.Int.{IsInt}
use libibtl.Store.{Ptr}
use libibtl.Engine.{
  Query, Param, Engine, is_matched_query, is_matched_query2, get_matched_query, remove_query,
}
use libibtl.Datatype.{reg_size}
use libibtl.Engine.Queries.{Platform, reg_mr, create_query}
use libibtl.Engine.Post.{◌>>=◌}
use libibtl.Engine.Recv.{
  is_discarded, arrive, on_recv_cq_wc_recv, passive_query, init_passive_query, wait_for, receive,
  post_recv_msg_param,
}
use libibtl.Engine.Matching.{
  All, IsFirst, is_matched_query_symm, get_matched_query-IsFirst, get_matched_query2-IsFirst,
}
use libibtl.Engine.Arrival.Frame.{
  Keeps, KeepsIf, destroy_query-Keeps, init_passive_query-Keeps, repost-Keeps, deliver-Keeps,
  take-Keeps,
}

-- no waiting receive matches the message
abbrev pub Misses : ℕ → List Query → Query → Type 0
Misses ft pq a = All (λ p. is_matched_query ft a.msg p.msg ≡ false) pq

-- Every waiting message is of the current epoch, and no waiting receive matches it.
pub record Settled (e : Engine) : Type 0 where
  pub current : All (λ a. e.ft_epoch ≤ a.msg.epoch) e.aq
  pub apart : All (Misses e.ft_epoch e.pq) e.aq

All-append {ℓ} :
    {A : Type ℓ} (P : A → Type 0) (front back : List A)
    → All P front
    → All P back
    → All P (front ++ back)
All-append P [] back none_in h = h
All-append P (a ∷ front) back (here, there) h = (here, All-append P front back there h)

All-map {ℓ} :
    {A : Type ℓ} (P Q : A → Type 0) (xs : List A) → ((x : A) → P x → Q x) → All P xs → All Q xs
All-map P Q [] f h = tt
All-map P Q (x ∷ xs) f h = (f x h.0, All-map P Q xs f h.1)

All-map₂ {ℓ} :
    {A : Type ℓ} (P Q R : A → Type 0) (xs : List A)
    → ((x : A) → P x → Q x → R x)
    → All P xs
    → All Q xs
    → All R xs
All-map₂ P Q R [] f h k = tt
All-map₂ P Q R (x ∷ xs) f h k = (f x h.0 k.0, All-map₂ P Q R xs f h.1 k.1)

pub All-remove_query :
    (P : Query → Type 0) (a : Ptr) (qs : List Query) → All P qs → All P (remove_query a qs)
unfolding remove_query
All-remove_query P a [] h = tt
All-remove_query P a (q ∷ qs) h = elim (Bool-cases (q.address == a)) [
  | inl hit ↦ rw hit h.1
  | inr miss ↦ rw miss (h.0, All-remove_query P a qs h.1)
]

Keeps-Settled : {e e' : Engine} → Keeps e e' → Settled e → Settled e'
Keeps-Settled {e} k s = record {
  current = rw (k.aq, k.ft_epoch) s.current;
  apart = rw (k.aq, k.pq, k.ft_epoch) s.apart;
}

-- a step either ends the process or leaves the queues settled
abbrev pub SettledIf : Option Engine → Type 0
SettledIf none = Unit
SettledIf (some e) = Settled e

pub KeepsIf-Settled : (e : Engine) (o : Option Engine) → KeepsIf e o → Settled e → SettledIf o
KeepsIf-Settled e none k s = tt
KeepsIf-Settled e (some e') k s = Keeps-Settled k s

pub SettledIf-bind :
    (o : Option Engine) (f : Engine → Option Engine)
    → SettledIf o
    → ((e : Engine) → KeepsIf e (f e))
    → SettledIf (o >>= f)
SettledIf-bind none f s keeps = tt
SettledIf-bind (some e) f s keeps = KeepsIf-Settled e (f e) (keeps e) s

-- the message that arrives is matched, or waits
arrive-Settled :
    (platform : Platform) (active : Query) (e : Engine) (o : Option Query)
    → IsFirst (λ p. is_matched_query e.ft_epoch active.msg p.msg) e.pq o
    → Settled e
    → SettledIf (arrive platform active e o)
unfolding arrive
arrive-Settled platform active e (some passive) first s =
    KeepsIf-Settled (record e { pq = remove_query passive.address e.pq }) _
      (deliver-Keeps platform passive active _ active.msg.opcode)
      (record {
        current = s.current;
        apart = All-map _ _ e.aq (λ a h. All-remove_query _ passive.address e.pq h) s.apart;
      })
arrive-Settled platform active e none misses s =
    elim (Bool-cases (leb e.ft_epoch active.msg.epoch)) [
      | inl live ↦ rw live (record {
        current = All-append _ e.aq (active ∷ []) s.current (leb→le _ _ live, tt);
        apart = All-append _ e.aq (active ∷ []) s.apart (misses, tt);
      })
      | inr stale ↦ rw stale s
    ]

-- When a message arrives, the handler ends the process or leaves the queues settled.
pub on_recv_cq_wc_recv-SettledIf :
    (platform : Platform) (active : Query) (e : Engine)
    → Settled e
    → SettledIf (on_recv_cq_wc_recv platform active e)
unfolding on_recv_cq_wc_recv
on_recv_cq_wc_recv-SettledIf platform active e s =
    elim (Bool-cases (is_discarded e.fdmi_state active.msg.op)) [
      | inl gone ↦ rw gone (Keeps-Settled (destroy_query-Keeps active e) s)
      | inr kept ↦ rw kept (
          SettledIf-bind (arrive platform active e (get_matched_query e.ft_epoch active e.pq)) _
            (arrive-Settled platform active e _ (get_matched_query-IsFirst e.ft_epoch active e.pq)
              s)
            (λ e'. repost-Keeps platform active.conn e'))
    ]

-- The receive that waits misses every message that waits.
wait_for-Settled :
    (platform : Platform) (param : Param) (e : Engine)
    → IsInt param.rank
    → IsInt param.tag
    → All (λ a. is_matched_query2 e.ft_epoch param.rank param.tag param.comm_id a.msg ≡ false) e.aq
    → Settled e
    → SettledIf (wait_for platform param e)
unfolding wait_for init_passive_query passive_query
wait_for-Settled platform param e hr ht misses s =
    let e₁ = (create_query platform none e).1 in
    let (registered, e') =
      reg_mr platform param.addr (reg_size param.dtype param.count) platform.domain_pd e₁ in
    let k = init_passive_query-Keeps platform param e in
    let s' : Settled e' = Keeps-Settled k s in
    let misses' : All
        (λ a. is_matched_query2 e'.ft_epoch param.rank param.tag param.comm_id a.msg ≡ false)
        e'.aq =
      rw (k.aq, k.ft_epoch) misses in
    elim (Option-cases registered) [
      | inl failed ↦ rw (failed, ◌>>=◌) tt
      | inr (mr, got) ↦
          rw (got, ◌>>=◌)
            (record {
              current = s'.current;
              apart =
                  All-map₂ _ _ _ e'.aq (λ a old new. All-append _ e'.pq _ old (new, tt)) s'.apart
                    (All-map₂ _ _ _ e'.aq
                      (λ a live miss.
                        is_matched_query_symm e'.ft_epoch param.rank param.tag a.msg _ hr ht live
                          (omega arith) refl refl
                        ∙ miss)
                      s'.current misses');
            })
    ]

receive-Settled :
    (platform : Platform) (param : Param) (e : Engine) (o : Option Query)
    → IsInt param.rank
    → IsInt param.tag
    → IsFirst (λ a. is_matched_query2 e.ft_epoch param.rank param.tag param.comm_id a.msg) e.aq o
    → Settled e
    → SettledIf (receive platform param e o)
unfolding receive
receive-Settled platform param e (some active) hr ht first s =
    KeepsIf-Settled (record e { aq = remove_query active.address e.aq }) _
      (take-Keeps platform param active _ active.msg.opcode)
      (record {
        current = All-remove_query _ active.address e.aq s.current;
        apart = All-remove_query _ active.address e.aq s.apart;
      })
receive-Settled platform param e none hr ht misses s =
    wait_for-Settled platform param e hr ht misses s

-- When a receive is posted, with a rank and a tag that are values of `int`, the call ends the process
-- or leaves the queues settled.
pub post_recv_msg_param-SettledIf :
    (platform : Platform) (param : Param) (e : Engine)
    → IsInt param.rank
    → IsInt param.tag
    → Settled e
    → SettledIf (post_recv_msg_param platform param e)
unfolding post_recv_msg_param
post_recv_msg_param-SettledIf platform param e hr ht s =
    receive-Settled platform param e _ hr ht
      (get_matched_query2-IsFirst e.ft_epoch param.rank param.tag param.comm_id e.aq) s
