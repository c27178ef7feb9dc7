-- ===== src/PageAllocator/Reserve.antt =====
-- `reserve_region`: a region around the pages that are asked for.
use pinyon.Prelude.{
  ℕ, ◌+◌, ◌/◌, ◌^◌, ◌≤◌, ◌<◌, ◌≡◌, ◌⊎◌, inl, inr, ap, ◌∙◌, arith, true, false, Bool-cases, Option,
  none, some, List, get_elem?, All, All-In, In,
}
use pinyon.Region.{Region, words, inside, halve, contains}
use pinyon.PageAllocator.{
  Backend, BrokeredAllocation, no_allocation, max_depth, depth_from_page_length, find_free_region,
  trim_loop, remove_node,
}
use pinyon.PageAllocator.Calls.{
  half_around, trim_cost, brokered, remove_and_trim_region, reserve_region,
}
use pinyon.PageAllocator.Nodes.{Node, NodeAllocator}
use pinyon.PageAllocator.Lists.{Shaped-get_elem?}
use pinyon.PageAllocator.Depth.{depth_from_page_length-two_pow, depth_from_page_length_floor}
use pinyon.PageAllocator.Invariant.{Placed, cover, Inv, spare, remove_node_lem}
use pinyon.PageAllocator.Find.{found, missing, find_from-Found}
use pinyon.PageAllocator.Trim.{AreHalves, trim_loop-Trimmed}
use pinyon.PageAllocator.Allocate.{exponent_le, Refusal}

module _ {S : Type 0} (nodes : NodeAllocator S) (wanted : Region) (b : Backend S) where
  -- The wanted region has pages in both halves.
  abbrev pub IsAcross : Region → Type 0
  IsAcross r =
      (wanted.offset < r.offset + r.length / 2)
      × (r.offset + r.length / 2 < wanted.offset + wanted.length)

  -- Either no free region of the depths searched contains the wanted one and nothing changes; or a
  -- region that contains it, and was free, is given out. Its depth is that of the wanted length, with
  -- an overhead of 0, or the wanted region has pages on both sides of its middle, unless the node
  -- allocator refused in some state.
  pub data Reserved (r : Option (BrokeredAllocation × Backend S)) : Type 0 where
    failed :
        r ≡ some (no_allocation, b)
        → ((d : ℕ) (list : List Node)
            → depth_from_page_length wanted.length ≤ d
            → get_elem? b.free_lists d ≡ some list
            → All (λ node. contains node.region wanted ≡ false) list)
        → Reserved r
    given :
        (given_region : Region) (exponent cost : ℕ) (b' : Backend S)
        → r ≡ some (brokered given_region cost, b')
        → Inv nodes b'
        → given_region.length ≡ 2 ^ exponent
        → given_region.offset + given_region.length < words
        → contains given_region wanted ≡ true
        → ((p : ℕ) → cover p b'.free_lists + inside p given_region ≡ cover p b.free_lists)
        → ((exponent ≡ depth_from_page_length wanted.length) × (cost ≡ 0))
          ⊎ IsAcross given_region
          ⊎ Refusal nodes
        → Reserved r

  reserve_null :
      find_free_region wanted b.free_lists ≡ some none
      → reserve_region nodes wanted b ≡ some (no_allocation, b)
  unfolding reserve_region
  reserve_null e = ground (arith, e)

  reserve_node :
      {node : Node} {b₁ b₂ : Backend S} {r : Region} (d depth : ℕ)
      → find_free_region wanted b.free_lists ≡ some (some node)
      → depth_from_page_length node.region.length ≡ d
      → remove_node nodes d node b ≡ some b₁
      → trim_loop nodes
          (half_around wanted)
          (d + 2)
          node.region
          d
          (depth_from_page_length wanted.length)
          b₁
        ≡ some ((r, depth), b₂)
      → reserve_region nodes wanted b
        ≡ some (brokered r (trim_cost (depth_from_page_length wanted.length) depth), b₂)
  unfolding reserve_region remove_and_trim_region
  reserve_node d depth e same f g = ground (arith, e, same, f, g)

  half_around-AreHalves :
      (r kept freed : Region)
      → contains r wanted ≡ true
      → half_around wanted r ≡ some (kept, freed)
      → AreHalves r kept freed × (contains kept wanted ≡ true)
  unfolding half_around
  half_around-AreHalves r kept freed q e = elim (Bool-cases (contains (halve r).0 wanted)) [
    | inl left ↦ (inl (ground (arith, e, left), ground (arith, e, left)), ground (arith, e, left))
    | inr other ↦ elim (Bool-cases (contains (halve r).1 wanted)) [
      | inl right ↦ (
        inr (ground (arith, e, other, right), ground (arith, e, other, right)),
        ground (arith, e, other, right),
      )
      | inr neither ↦ absurd (ground (arith, e, other, neither))
    ]
  ]

  half_around-IsAcross :
      (r : Region)
      → r.offset + r.length < words
      → wanted.offset + wanted.length < words
      → contains r wanted ≡ true
      → half_around wanted r ≡ none
      → IsAcross r
  unfolding half_around halve contains
  half_around-IsAcross r word word' q e = elim (Bool-cases (contains (halve r).0 wanted)) [
    | inl left ↦ absurd (ground (arith, e, left))
    | inr left ↦ elim (Bool-cases (contains (halve r).1 wanted)) [
      | inl right ↦ absurd (ground (arith, e, left, right))
      | inr right ↦ (ground (arith, left, q), ground (arith, left, right, q))
    ]
  ]

  -- The region found is long enough for the depth that the loop trims to.
  contains_length :
      (r : Region)
      → r.offset + r.length < words
      → wanted.offset + wanted.length < words
      → contains r wanted ≡ true
      → wanted.length ≤ r.length
  unfolding contains
  contains_length r h k c = ground arith

  module _ (inv : Inv nodes b) (room : max_depth ≤ spare nodes b) (pos : 0 < wanted.length)
      (word : wanted.offset + wanted.length < words) where
    reserved_lem :
        (d : ℕ) (list : List Node) (node : Node)
        → find_free_region wanted b.free_lists ≡ some (some node)
        → d < max_depth
        → get_elem? b.free_lists d ≡ some list
        → In node list
        → contains node.region wanted ≡ true
        → Reserved (reserve_region nodes wanted b)
    reserved_lem d list node hit top at i ok =
        let (e, in_word) =
          All-In (Placed d) list node
            (Shaped-get_elem? Placed 0 d d b.free_lists list (omega arith) inv.placed at) i in
        let depth : depth_from_page_length node.region.length ≡ d =
          ap depth_from_page_length e ∙ depth_from_page_length-two_pow d in
        let end = depth_from_page_length wanted.length in
        let low = (depth_from_page_length_floor wanted.length pos).0 in
        let long = contains_length node.region in_word word ok in
        let down : end ≤ d = exponent_le wanted.length end d (omega arith) (omega arith) in
        let (b₁, removed, inv₁, less, sp) = remove_node_lem nodes d node list b inv at i in
        let ((r, last), b₂, run, t) =
          trim_loop-Trimmed nodes (half_around wanted) (λ r. contains r wanted ≡ true)
            half_around-AreHalves (d + 2) node.region d end b₁ (omega arith) inv₁ down (omega arith)
            (omega arith) e in_word ok in
        given r t.exponent (trim_cost end last) b₂ (reserve_node d last hit depth removed run) t.inv
          t.power t.in_word t.keeps (λ p. omega (arith, t.conserved p, less p))
          (elim t.stopped [
            | inl (same, at_end) ↦ inl (same, ground (arith, at_end))
            | inr (inl (broke, _)) ↦ inr (inl (half_around-IsAcross r t.in_word word t.keeps broke))
            | inr (inr why) ↦ inr (inr why)
          ])

    -- With the invariant, room for the nodes of one call, and a wanted region that is not empty and
    -- stays in the word, of less than `2 ^ 21` pages, `reserve_region` is defined. Either no free
    -- region of the depths searched contains the wanted one, and nothing changes; or a region that
    -- contains it and was free is given out, every other page stays as free as before, and the
    -- invariant holds. That region has the depth of the wanted length, at no overhead, or the wanted
    -- region has pages in both its halves, unless the node allocator refuses in some state.
    pub reserve_region-Reserved : wanted.length < 2 ^ 21 → Reserved (reserve_region nodes wanted b)
    unfolding find_free_region
    reserve_region-Reserved small =
        let start : depth_from_page_length wanted.length ≤ max_depth =
          exponent_le wanted.length (depth_from_page_length wanted.length) max_depth (omega arith)
            (omega (arith, (depth_from_page_length_floor wanted.length pos).0)) in
        elim (find_from-Found (λ node. contains node.region wanted) b.free_lists inv.depths
          (max_depth + 1) (depth_from_page_length wanted.length) (omega arith) start) [
            | found d list node hit low top at i ok ↦ reserved_lem d list node hit top at i ok
            | missing null nothing ↦ failed (reserve_null null) nothing
          ]
