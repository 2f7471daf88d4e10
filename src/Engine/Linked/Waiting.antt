-- ===== src/Engine/Linked/Waiting.antt =====
-- src/fdmi.c: the query that fdmi_post_recv_msg_param enters where no message has come.
use libibtl.Base.{◌≡◌, refl, sym, Option, some, some_inj, Option-cases, inl, inr, [], ◌∷◌, ◌++◌}
use libibtl.Engine.{Query, Param, Engine}
use libibtl.Engine.Queries.{Platform}
use libibtl.Engine.Post.{◌>>=◌}
use libibtl.Engine.Recv.{init_passive_query, wait_for}
use libibtl.Engine.Arrival.Frame.{init_passive_query-Keeps}

-- the query that waits where no message has come; there is none where a registration ends the process
unfoldable pub waiting : Platform → Param → Engine → Option Query
waiting platform param e =
    let (created, e') = init_passive_query platform param e in
    (do q ← created; some (record q { msg = record (q.msg) { epoch = e'.ft_epoch } }))

-- where the receive waits, the query is behind those that waited before
pub record Waits (e e' : Engine) (q : Query) : Type 0 where
  pub aq : e'.aq ≡ e.aq
  pub pq : e'.pq ≡ e.pq ++ q ∷ []

pub wait_for-Waits :
    (platform : Platform) (param : Param) (e : Engine) {e' : Engine}
    → wait_for platform param e ≡ some e'
    → (q : Query) × (waiting platform param e ≡ some q) × Waits e e' q
unfolding wait_for waiting
wait_for-Waits platform param e {e'} ran =
    let kept = init_passive_query-Keeps platform param e in
    elim (Option-cases (init_passive_query platform param e).0) [
      | inl failed ↦ (let wrong = rw (failed, ◌>>=◌) at ran in cc)
      | inr (p, made) ↦
          let is_e = some_inj (rw (made, ◌>>=◌) at ran) in
          (
            record p {
              msg = record (p.msg) { epoch = (init_passive_query platform param e).1.ft_epoch };
            },
            rw (made, ◌>>=◌) refl,
            record { aq = rw (sym is_e) kept.aq; pq = rw (sym is_e, kept.pq) refl },
          )
    ]
