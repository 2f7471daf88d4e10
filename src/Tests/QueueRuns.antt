-- ===== src/Tests/QueueRuns.antt =====
-- A queue of two nodes (src/fdmi_queue.c).
use libibtl.Base.{refl, false, some, none, [], ◌∷◌, arith, ◌==◌, if◌then◌else◌}
use libibtl.Store.{null, node, Heap}
use libibtl.Store.Cells.{Cells, Linked}
use libibtl.Store.Returns.{Returns}
use libibtl.Queue.{Queue, remove, destroy}
use libibtl.Queue.Holds.{Holds}
use libibtl.Queue.Iterate.{AllNonNull}
use libibtl.Queue.Remove.{Removes, remove-Removes}
use libibtl.Queue.Drain.{Drained, destroy-Drained}

-- node 1 with item 10, in front of node 2 with item 20
abbrev two_nodes : Heap
two_nodes a = if a == 1 then some (node 2 10) else if a == 2 then some (node null 20) else none

abbrev two_cells : Cells
two_cells = (1, 10) ∷ (2, 20) ∷ []

-- the iterator stands at the second node
abbrev two_items : Queue
two_items = record { head = 1; tail = 2; ite = 2; mut = false; length = 2 }

two_nodes-Linked : Linked two_nodes two_cells
two_nodes-Linked = ((λ e. omega (arith, e)), refl, refl, ((λ e. omega (arith, e)), refl, refl, tt))

two_items-Holds : Holds two_nodes two_items two_cells
two_items-Holds = record { head = refl; tail = refl; length = refl; linked = two_nodes-Linked }

two_cells-AllNonNull : AllNonNull two_cells
two_cells-AllNonNull = ((λ e. omega (arith, e)), ((λ e. omega (arith, e)), tt))

remove-Removes_example :
    Returns (Removes 20 two_nodes two_cells two_items) (remove two_items 20 two_nodes)
remove-Removes_example = remove-Removes 20 two_nodes two_items two_cells two_items-Holds

destroy-Drained_example : Returns (Drained two_cells two_nodes) (destroy two_items two_nodes)
destroy-Drained_example =
    destroy-Drained two_nodes two_items two_cells two_items-Holds two_cells-AllNonNull
