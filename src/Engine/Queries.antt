-- ===== src/Engine/Queries.antt =====
-- The free list of queries and the cache of registered memory (src/fdmi.c). What comes from outside,
-- the address and contents that `malloc` returns and the registration that ibv_reg_mr makes, is an
-- argument.
use libibtl.Base.{
  ℕ, ◌+◌, ◌%◌, ◌^◌, Bool, true, false, ◌&&◌, Option, none, some, List, [], ◌∷◌, ◌++◌, ◌==◌, leb,
  if◌then◌else◌,
}
use libibtl.Store.{Ptr, null}
use libibtl.Engine.{Work, Mr, Connection, Query, Engine, remove_query, Active}

-- the test of fdmi_create_query: both without a connection, or of one protection domain
unfoldable pub is_reusable : Option Connection → Option Connection → Bool
is_reusable none none = true
is_reusable (some c) (some d) = c.pd == d.pd
is_reusable _ _ = false

unfoldable pub find_reusable : Option Connection → List Query → Option Query
find_reusable conn [] = none
find_reusable conn (tmp ∷ queue) =
    if is_reusable tmp.conn conn then some tmp else find_reusable conn queue

-- the loop of fdmi_reg_mr over the cache; `size` is 32-bit
unfoldable pub find_mr : (addr size : ℕ) (pd : Ptr) → List Mr → Option Mr
find_mr addr size pd [] = none
find_mr addr size pd (tmp ∷ queue) =
    if (tmp.pd == pd) && ((tmp.addr == addr) && leb (addr + size) (tmp.addr + tmp.length))
    then some tmp
    else find_mr addr size pd queue

-- What the operating system and the verbs library give: the query that `malloc` returns, with
-- whatever its fields hold; the region of ibv_reg_mr, or `none` where it fails in each of the tries that
-- fdmi_reg_mr makes; whether ibv_post_send and ibv_post_recv take the work that is handed to them, after
-- what has been posted; whether the verbs make a queue
-- pair for an identifier, and what its first one needs before; the size of `struct fdmi_msg`, and the
-- domain's protection domain.
pub record Platform : Type 0 where
  pub fresh_query : Engine → Query
  pub reg_mr : (pd : Ptr) (addr size : ℕ) → Option Mr
  pub post_send : (posted : List Work) → Work → Bool
  pub post_recv : (posted : List Work) → Work → Bool
  pub create_qp : (has_context : Bool) (id : Ptr) → Bool
  pub sizeof_msg : ℕ
  pub domain_pd : Ptr

-- fdmi_reg_mr: where the registration fails, it ends the process, and there is no region. What follows
-- needs one, so that the step yields `none`.
unfoldable pub reg_mr : Platform → (addr size : ℕ) (pd : Ptr) → Engine → Option Mr × Engine
reg_mr platform addr size pd e =
    let size' = size % 2 ^ 32 in
    elim (find_mr addr size' pd e.reg_mr_q) [
      | some tmp ↦ (some tmp, e)
      | none ↦ elim (platform.reg_mr pd addr size') [
        | some mr ↦ (some mr, record e { reg_mr_q = e.reg_mr_q ++ mr ∷ [] })
        | none ↦ (none, e)
      ]
    ]

-- the registration of a new query's message, for a query with a connection
unfoldable pub reg_msg : Platform → Option Connection → Query → Engine → Query × Engine
unfolding reg_mr
reg_msg platform none q e = (q, e)
reg_msg platform (some c) q e =
    let (mr, e') = reg_mr platform q.msg_address platform.sizeof_msg c.pd e in
    (record q { msg_mr = mr }, e')

unfoldable pub take_query : Platform → Option Connection → Engine → Option Query → Query × Engine
unfolding reg_msg
take_query platform conn e (some q) =
    (q, record e { free_query_q = remove_query q.address e.free_query_q })
take_query platform conn e none = reg_msg platform conn (platform.fresh_query e) e

-- fdmi_create_query: a free query that fits, or a new one
unfoldable pub create_query : Platform → Option Connection → Engine → Query × Engine
unfolding find_reusable is_reusable take_query
create_query platform conn e =
    let (q, e') = take_query platform conn e (find_reusable conn e.free_query_q) in
    (record q { conn = conn; request = null; active_query_to_free = none }, e')

-- fdmi_destroy_query
unfoldable pub destroy_query : Query → Engine → Engine
destroy_query q e = record e { free_query_q = e.free_query_q ++ q ∷ [] }

abbrev pub as_query : Active → Query
as_query a = record {
  address = a.address;
  conn = a.conn;
  msg = a.msg;
  msg_address = a.msg_address;
  msg_mr = a.msg_mr;
  active_query_to_free = none;
  request = null;
}

abbrev pub as_active : Query → Active
as_active q = record {
  address = q.address;
  conn = q.conn;
  msg = q.msg;
  msg_address = q.msg_address;
  msg_mr = q.msg_mr;
}
