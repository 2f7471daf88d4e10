-- ===== src/Engine/Arrival/Sound/Ready.antt =====
-- src/fdmi.c: what the queries are that the poller is given, by the kind of their completion.
use libibtl.Base.{
  ◌≡◌, some_inj, refl, sym, subst, Option, none, some, List, [], ◌∷◌, ◌==◌, Bool-cases, inl, inr,
}
use libibtl.Store.{Ptr}
use libibtl.Engine.{
  Opcode, eager, rdma_read, loop, MsgType, comm_init, comm_fin, Connection, Mr, Active, Query,
  Engine, remove_flag,
}
use libibtl.Engine.Queries.{as_query}
use libibtl.Engine.Post.{◌>>=◌}
use libibtl.Engine.Send.{WcOpcode, wc_recv, wc_rdma_read, wc_send, wc_other}
use libibtl.Engine.Matching.{All}
use libibtl.Engine.Arrival.Settled.{Settled, SettledIf}
use libibtl.Engine.Arrival.Returns.{Registered, Leaves}
use libibtl.Engine.Arrival.Sound.{NonNull, Usable}

-- the query that a query is to free
abbrev pub Held : Option Active → Type 0
Held none = Unit
Held (some a) = Registered (as_query a)

-- What a completed query is, by its kind: a receive is registered, as is what it holds; the query of a
-- read has a request and holds a message that came on a connection; that of an eager send has a request.
abbrev pub Ready : WcOpcode → MsgType → Query → Type 0
Ready wc_recv type q = Registered q × Held q.active_query_to_free
Ready wc_rdma_read type q =
    NonNull q.request
    × Registered q
    × (a : Active) × (c : Connection) × (mr : Mr) × (q.active_query_to_free ≡ some a)
    × (a.conn ≡ some c)
    × (a.msg_mr ≡ some mr)
Ready wc_send comm_init q = NonNull q.request × Registered q
Ready wc_send comm_fin q = Registered q
Ready wc_other type q = Unit

pub All-remove_flag : (a : Ptr) (ps : List Ptr) → All NonNull ps → All NonNull (remove_flag a ps)
unfolding remove_flag
All-remove_flag a [] all = tt
All-remove_flag a (p ∷ ps) all = elim (Bool-cases (p == a)) [
  | inl hit ↦ rw hit all.1
  | inr miss ↦ rw miss (all.0, All-remove_flag a ps all.1)
]

pub Leaves-opcode :
    (o : Opcode) (a b : Option Engine)
    → Leaves Usable a
    → Leaves Usable b
    → Leaves Usable (elim o as (λ _. Option Engine) [ eager ↦ a | _ ↦ b ])
Leaves-opcode eager a b ha hb = ha
Leaves-opcode rdma_read a b ha hb = hb
Leaves-opcode loop a b ha hb = hb

pub Leaves-type :
    (type : MsgType) (a b : Option Engine)
    → (type ≡ comm_init → Leaves Usable a)
    → (type ≡ comm_fin → Leaves Usable b)
    → Leaves Usable (elim type as (λ _. Option Engine) [ comm_init ↦ a | comm_fin ↦ b ])
Leaves-type comm_init a b ha hb = ha refl
Leaves-type comm_fin a b ha hb = hb refl

pub Leaves-option :
    (o : Option Connection) (c : Connection) (f : Connection → Option Engine)
    → o ≡ some c
    → Leaves Usable (f c)
    → Leaves Usable (o >>= f)
Leaves-option none c f e l = absurd cc
Leaves-option (some d) c f e l = subst (λ x. Leaves Usable (f x)) (sym (some_inj e)) l

-- both of what a step leaves
pub Leaves-both :
    (o : Option Engine) → Leaves Usable o → SettledIf o → Leaves (λ e. Usable e × Settled e) o
Leaves-both none l s = l
Leaves-both (some e) l s = (l, s)
