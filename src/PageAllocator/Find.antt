-- ===== src/PageAllocator/Find.antt =====
-- What the search through the depths finds.
use pinyon.Prelude.{
  ℕ, zero, suc, ◌+◌, ◌≤◌, ◌<◌, ◌≡◌, inl, inr, arith, Bool, true, false, ◌==◌, Bool-cases,
  Option-cases, Option, none, some, List, length, get_elem?, get_elem?-total, get_elem?-lt, sym,
  ◌∙◌, All, In, subst, ==_iff, some-injective,
}
use pinyon.Algorithm.{find_if}
use pinyon.Algorithm.Search.{find_if_sound, find_if_complete}
use pinyon.PageAllocator.{max_depth, find_from}
use pinyon.PageAllocator.Nodes.{Node}

-- From a depth on: a node that passes, in one of the lists, or none that does.
pub data Found (pred : Node → Bool) (depth : ℕ) (lists : List (List Node))
    (r : Option (Option Node)) : Type 0 where
  found :
      (d : ℕ) (list : List Node) (node : Node)
      → r ≡ some (some node)
      → depth ≤ d
      → d < max_depth
      → get_elem? lists d ≡ some list
      → In node list
      → pred node ≡ true
      → Found pred depth lists r
  missing :
      r ≡ some none
      → ((d : ℕ) (list : List Node)
          → depth ≤ d
          → get_elem? lists d ≡ some list
          → All (λ node. pred node ≡ false) list)
      → Found pred depth lists r

-- One round of the search, case by case.
module _ (pred : Node → Bool) (rounds depth : ℕ) (lists : List (List Node)) where
  find_end : (depth == max_depth) ≡ true → find_from (suc rounds) pred depth lists ≡ some none
  unfolding find_from
  find_end e = rw e

  module _ (more : (depth == max_depth) ≡ false) {list : List Node}
      (at : get_elem? lists depth ≡ some list) where
    find_here :
        {node : Node}
        → find_if pred list ≡ some node
        → find_from (suc rounds) pred depth lists ≡ some (some node)
    unfolding find_from
    find_here hit = ground (arith, hit)

    find_on :
        find_if pred list ≡ none
        → find_from (suc rounds) pred depth lists ≡ find_from rounds pred (depth + 1) lists
    unfolding find_from
    find_on empty = ground (arith, empty)

module _ (pred : Node → Bool) (lists : List (List Node)) (len : length lists ≡ max_depth) where
  Found-next :
      (depth : ℕ) (list : List Node) (r : Option (Option Node))
      → get_elem? lists depth ≡ some list
      → All (λ node. pred node ≡ false) list
      → Found pred (depth + 1) lists r
      → Found pred depth lists r
  Found-next depth list r e all (found d list' node res low high at i ok) =
      found d list' node res (omega arith) high at i ok
  Found-next depth list r e all (missing res nothing) = missing res λ d list' low at.
      elim (Bool-cases (d == depth)) [
        | inl same ↦
            let eq : d ≡ depth = (==_iff d depth).0 same in
            subst (All (λ node. pred node ≡ false))
              (some-injective list list'
                (sym e ∙ subst (λ k. get_elem? lists k ≡ some list') eq at))
              all
        | inr other ↦ nothing d list' (ground arith) at
      ]

  pub find_from-Found :
      (rounds depth : ℕ)
      → max_depth < depth + rounds
      → depth ≤ max_depth
      → Found pred depth lists (find_from rounds pred depth lists)
  find_from-Found zero depth f h = absurd (omega arith)
  find_from-Found (suc rounds) depth f h = elim (Bool-cases (depth == max_depth)) [
    | inl end ↦
        missing (find_end pred rounds depth lists end)
          λ d list low at. absurd (ground (arith, get_elem?-lt lists d list at))
    | inr more ↦
        let (list, at) = get_elem?-total lists depth (ground arith) in
        elim (Option-cases (find_if pred list)) [
          | inl empty ↦
              subst (Found pred depth lists) (sym (find_on pred rounds depth lists more at empty)) (
                Found-next depth list _ at (find_if_complete pred list empty)
                  (find_from-Found rounds (depth + 1) (omega arith) (ground arith)))
          | inr (node, hit) ↦
              let (i, ok) = find_if_sound pred list node hit in
              found depth list node (find_here pred rounds depth lists more at hit) (omega arith)
                (ground arith) at i ok
        ]
  ]
