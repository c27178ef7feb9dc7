-- ===== src/LinkedList/Tests.antt =====
-- A list of two nodes in memory, at 112 and 208.
use pinyon.Prelude.{◌≡◌, ◌==◌, if◌then◌else◌, refl, arith, some, [], ◌∷◌}
use pinyon.Region.{region}
use pinyon.PageAllocator.Nodes
use pinyon.PageAllocator.Nodes.{Node}
use pinyon.LinkedList.{ManualLinkedList, insert_after, remove, destroy, iter_begin, visit}
use pinyon.LinkedList.Chains.{Represents}
use pinyon.LinkedList.Sequences.{IsFresh, insert_after-refines, remove-refines, visit-Represents}

abbrev first_node : Node
first_node = record { ptr = 112; region = region 8 8 }

abbrev second_node : Node
second_node = record { ptr = 208; region = region 32 8 }

abbrev new_node : Node
new_node = record { ptr = 304; region = region 64 8 }

abbrev two_nodes : ManualLinkedList
two_nodes = record {
  next = λ p. if p == 112 then 208 else 0;
  prev = λ p. if p == 208 then 112 else 0;
  head = 112;
  tail = 208;
  length = 2;
}

two_nodes-Represents : Represents two_nodes (112 ∷ 208 ∷ [])
two_nodes-Represents = record {
  linked = (refl, refl, (refl, refl, tt));
  distinct = (omega arith, (refl, tt), (omega arith, tt, tt));
  at_head = refl;
  at_tail = refl;
  counted = refl;
}

new_node-IsFresh : IsFresh two_nodes 304 (112 ∷ 208 ∷ [])
new_node-IsFresh = record {
  not_null = omega arith;
  off = (refl, (refl, tt));
  no_next = refl;
  no_prev = refl;
}

insert_run :
    Nodes.insert_after (some first_node) new_node (first_node ∷ second_node ∷ [])
    ≡ some (first_node ∷ new_node ∷ second_node ∷ [])
unfolding Nodes.insert_after Nodes.insert_after_ptr
insert_run = refl

remove_run : Nodes.remove 112 (first_node ∷ second_node ∷ []) ≡ some (second_node ∷ [])
unfolding Nodes.remove
remove_run = refl

head_moves : (remove 112 two_nodes).head ≡ 208
unfolding remove destroy
head_moves = refl

insert_after-refines_example : Represents (insert_after 112 304 two_nodes) (112 ∷ 304 ∷ 208 ∷ [])
insert_after-refines_example =
    insert_after-refines two_nodes (some first_node) new_node (first_node ∷ second_node ∷ [])
      (first_node ∷ new_node ∷ second_node ∷ []) two_nodes-Represents new_node-IsFresh (omega arith)
      insert_run

remove-refines_example : Represents (remove 112 two_nodes) (208 ∷ [])
remove-refines_example =
    remove-refines two_nodes 112 (first_node ∷ second_node ∷ []) (second_node ∷ [])
      two_nodes-Represents (omega arith) remove_run

visit-Represents_example : visit 3 two_nodes (iter_begin two_nodes) ≡ some (112 ∷ 208 ∷ [])
visit-Represents_example = visit-Represents two_nodes (112 ∷ 208 ∷ []) two_nodes-Represents
