-- ===== src/Tests/HashtableRuns.antt =====
-- Calls of a table of two queues (src/fdmi_hashtable.c).
use libibtl.Base.{◌≡◌, refl, false, Option, none, some, List, [], ◌∷◌, arith, ◌==◌, if◌then◌else◌}
use libibtl.Store.{Ptr, null, node, Heap, ok}
use libibtl.Store.Cells.{Cells, Linked}
use libibtl.Store.Returns.{Returns}
use libibtl.Queue.{Queue}
use libibtl.Queue.Holds.{Holds}
use libibtl.Queue.Search.{Entries, PointTo}
use libibtl.Hashtable.{Hashtable, Entry, create, find, delete, content_or_null}
use libibtl.Hashtable.Linked.{
  get_linked, remove_linked, bucket_of, IsBucket, Distinct, Removed, remove_linked-delete,
}
use libibtl.Hashtable.Refinement.{
  TableCall, adds, updates, gets, removes, call_meaning, make_calls, calls_meaning, nothing,
}
use libibtl.Hashtable.Refinement.Calls.{make_calls-calls_meaning}

-- the keys 32 and 64 fall into the same queue
abbrev some_calls : List TableCall
some_calls = adds 32 7 ∷ updates 64 8 ∷ adds 32 9 ∷ removes 1 32 ∷ gets 32 ∷ removes 1 5 ∷ []

some_results : (calls_meaning some_calls nothing).0 ≡ null ∷ null ∷ null ∷ 1 ∷ 9 ∷ null ∷ []
unfolding calls_meaning call_meaning
some_results = refl

make_calls-calls_meaning_example :
    (ht' : Hashtable) × (make_calls some_calls (create 2)
      ≡ some ((calls_meaning some_calls nothing).0, ht'))
make_calls-calls_meaning_example = make_calls-calls_meaning 2 some_calls (omega arith)

-- nodes with the keys 32 and 16, on a linked queue
abbrev two_entries : Ptr → Option Entry
two_entries p =
    if p == 42
    then some (record { key = 32; content = 6 })
    else if p == 41
    then some (record { key = 16; content = 5 })
    else none

abbrev entry_nodes : Heap
entry_nodes a = if a == 1 then some (node 2 42) else if a == 2 then some (node null 41) else none

abbrev entry_cells : Cells
entry_cells = (1, 42) ∷ (2, 41) ∷ []

abbrev entry_list : Entries Entry
entry_list = (42, record { key = 32; content = 6 }) ∷ (41, record { key = 16; content = 5 }) ∷ []

abbrev entry_queue : Queue
entry_queue = record { head = 1; tail = 2; ite = null; mut = false; length = 2 }

entry_nodes-Linked : Linked entry_nodes entry_cells
entry_nodes-Linked =
    ((λ e. omega (arith, e)), refl, refl, ((λ e. omega (arith, e)), refl, refl, tt))

entry_queue-Holds : Holds entry_nodes entry_queue entry_cells
entry_queue-Holds = record { head = refl; tail = refl; length = refl; linked = entry_nodes-Linked }

entry_list-PointTo : PointTo two_entries entry_cells entry_list
unfolding PointTo
entry_list-PointTo =
    (refl, (λ e. omega (arith, e)), refl, (refl, (λ e. omega (arith, e)), refl, tt))

entry_list-Distinct : Distinct entry_list
unfolding Distinct
entry_list-Distinct = (((λ e. omega (arith, e)), tt), (tt, tt))

remove_linked-delete_example :
    ((ite : Ptr) × (get_linked two_entries 16 entry_queue entry_nodes
        ≡ ok
            (content_or_null (find 16 (bucket_of entry_list)), record entry_queue { ite = ite })
            entry_nodes))
    × Returns
        (λ (result, store', q') g.
          Removed 3 16 two_entries (bucket_of entry_list) result store'
          × IsBucket store' entry_nodes entry_cells (delete 16 (bucket_of entry_list)) q' g)
        (remove_linked 3 two_entries 16 entry_queue entry_nodes)
remove_linked-delete_example =
    remove_linked-delete 3 two_entries 16 entry_nodes entry_queue entry_cells entry_list
      entry_queue-Holds entry_list-PointTo entry_list-Distinct
