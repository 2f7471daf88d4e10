-- ===== src/Tests/EventsRuns.antt =====
-- A peer that connects (src/fdmi.c).
use libibtl.Base.{false, [], ◌∷◌}
use libibtl.Hashtable.{Hashtable}
use libibtl.Engine.{failure, Engine, get_matched_query}
use libibtl.Engine.Events.{create_peer, Node}
use libibtl.Engine.Arrival.Posted.{Posted}
use libibtl.Tests.EngineRuns.{empty_engine}

abbrev two_buckets : Hashtable
two_buckets = [] ∷ [] ∷ []

abbrev node : Node
node = record {
  engine = empty_engine;
  has_context = false;
  hstb_itop = two_buckets;
  connected_rank = 1;
  peers = create_peer ∷ create_peer ∷ [];
  is_recv_cq_polling = false;
  ft_msg = record { failed = []; elected = [] };
  disconnected_prank_q = [];
  calls = [];
}
