-- ===== src/PageAllocator/Insertion.antt =====
-- Where `insert_node` puts a node.
use pinyon.Prelude.{ℕ, ◌≡◌, some, List, ◌∷◌, get_elem?, set, arith}
use pinyon.PageAllocator.{Backend, insert_node}
use pinyon.PageAllocator.Nodes.{Node, insert_after}
use pinyon.PageAllocator.Invariant.{insertion_point-head}

-- `insert_node` puts the node behind the first of its list, whatever the regions are: the lists are
-- not kept in the order that `lower_bound` relies on.
pub insert_node-second :
    {S : Type 0} (depth : ℕ) (x node : Node) (xs : List Node) (b : Backend S)
    → get_elem? b.free_lists depth ≡ some (x ∷ xs)
    → insert_node depth node b
      ≡ some (record b { free_lists = set b.free_lists depth (x ∷ node ∷ xs) })
unfolding insert_node insert_after
insert_node-second depth x node xs b at =
    ground (arith, at, insertion_point-head (x ∷ xs) node.region)
