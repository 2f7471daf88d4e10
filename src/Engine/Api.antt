-- ===== src/Engine/Api.antt =====
-- The calls of src/fdmi.c that the applications make. The connection to the other rank is there
-- already: what sets one up is not modelled.
use libibtl.Base.{
  ℕ, ◌≡◌, refl, Bool, true, false, ◌||◌, not, Option, none, some, List, [], ◌∷◌, ◌++◌, ◌==◌, ltb,
  if◌then◌else◌, Bool-cases, inl, inr,
}
use libibtl.Base.Int.{ℤ, eq_ℤ, to_u64, to_int}
use libibtl.Store.{Ptr}
use libibtl.ProcMan.{Communicator, get_prank}
use libibtl.Engine.{
  Connection, Msg, Query, Param, any_source, any_tag, any_source_u64, any_tag_u64,
  is_matched_query2, get_matched_query2, Engine,
}
use libibtl.Engine.Queries.{Platform}
use libibtl.Engine.Post.{◌>>=◌}
use libibtl.Engine.Recv.{write_request, post_recv_msg_param}
use libibtl.Engine.Send.{post_send_msg_param}
use libibtl.Engine.Matching.{All}

-- `*(param.request_flag) = 0`
unfoldable pub lower_flag : Ptr → Engine → Option Engine
unfolding write_request
lower_flag p e = write_request p (record (e.requests p) { request_flag = false }) e

-- fdmi_verbs_isend: `prank` is the sender's rank, and `conn` the connection to the destination
unfoldable pub isend :
    Platform → (prank : ℤ) → (conn : Option Connection) → Param → Engine → Option Engine
unfolding lower_flag
isend platform prank conn param e = do
  e' ← lower_flag param.request (record e { send_req_q = e.send_req_q ++ param.request ∷ [] })
  post_send_msg_param platform prank conn param e'

-- fdmi_verbs_irecv: the source and the communicator of `param` are the two arguments
unfoldable pub irecv : Platform → Communicator → (vsource : ℤ) → Param → Engine → Option Engine
unfolding lower_flag
irecv platform comm vsource param e = do
  source ← get_prank comm vsource
  e' ← lower_flag param.request e
  post_recv_msg_param platform (record param { rank = source; comm_id = comm.0.id }) e'

-- fdmi_verbs_test
unfoldable pub test : Ptr → Engine → Bool
test request e = (e.requests request).request_flag

-- what fdmi_verbs_wait writes to the status, once fdmi_verbs_test gives 1
unfoldable pub status : Ptr → Engine → ℤ × ℤ
status request e = ((e.requests request).prank, (e.requests request).tag)

-- the four tests of the loop in fdmi_verbs_iprobe
unfoldable pub is_probed : (ft_epoch : ℕ) (source tag : ℤ) (comm_id : ℕ) → Msg → Bool
is_probed ft_epoch source tag comm_id msg =
    if ltb msg.epoch ft_epoch
    then false
    else if not (comm_id == msg.comm_id)
    then false
    else if not (eq_ℤ source any_source || (to_u64 source == msg.rank))
    then false
    else if not (eq_ℤ tag any_tag || (to_u64 tag == msg.tag))
    then false
    else true

-- fdmi_verbs_iprobe: the flag is 1 and the status is written where the result is `some`
unfoldable pub iprobe :
    (ft_epoch : ℕ) (source tag : ℤ) (comm_id : ℕ) → (aq : List Query) → Option (ℤ × ℤ)
unfolding is_probed
iprobe ft_epoch source tag comm_id [] = none
iprobe ft_epoch source tag comm_id (q ∷ aq) =
    if is_probed ft_epoch source tag comm_id q.msg
    then some (to_int q.msg.rank, to_int q.msg.tag)
    else iprobe ft_epoch source tag comm_id aq

-- neither the sender nor the tag is a wildcard
abbrev pub Definite : Query → Type 0
Definite q = ((q.msg.rank == any_source_u64) ≡ false) × ((q.msg.tag == any_tag_u64) ≡ false)

abbrev pub envelope : Option Query → Option (ℤ × ℤ)
envelope none = none
envelope (some q) = some (to_int q.msg.rank, to_int q.msg.tag)

is_probed-is_matched_query2 :
    (ft_epoch : ℕ) (source tag : ℤ) (comm_id : ℕ) (q : Query)
    → Definite q
    → is_probed ft_epoch source tag comm_id q.msg
      ≡ is_matched_query2 ft_epoch source tag comm_id q.msg
unfolding is_probed is_matched_query2
is_probed-is_matched_query2 ft_epoch source tag comm_id q d = rw (d.0, d.1) refl

-- Where no waiting message has a wildcard for its sender or its tag, a probe reports the sender and the
-- tag of the very message that fdmi_get_matched_query2 finds for the same physical source, tag and
-- communicator, and reports none where that search finds none. It is the search that a receive makes
-- once it has translated its source to a physical rank; a probe does not translate it.
pub iprobe-get_matched_query2 :
    (ft_epoch : ℕ) (source tag : ℤ) (comm_id : ℕ) (aq : List Query)
    → All Definite aq
    → iprobe ft_epoch source tag comm_id aq
      ≡ envelope (get_matched_query2 ft_epoch source tag comm_id aq)
unfolding iprobe get_matched_query2
iprobe-get_matched_query2 ft_epoch source tag comm_id [] d = refl
iprobe-get_matched_query2 ft_epoch source tag comm_id (q ∷ aq) d =
    let same = is_probed-is_matched_query2 ft_epoch source tag comm_id q d.0 in
    elim (Bool-cases (is_matched_query2 ft_epoch source tag comm_id q.msg)) [
      | inl hit ↦ rw (same, hit) refl
      | inr miss ↦ rw (same, miss) (iprobe-get_matched_query2 ft_epoch source tag comm_id aq d.1)
    ]
