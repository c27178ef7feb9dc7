-- ===== src/PageAllocator/Allocate.antt =====
-- `allocate`: what it gives out, and when it gives nothing.
use pinyon.Prelude.{
  ℕ, suc, ◌+◌, ◌*◌, ◌%◌, ◌^◌, ◌≤◌, ◌<◌, ◌≡◌, refl, ◌⊎◌, inl, inr, ap, ◌∙◌, arith, false, ◌&&◌,
  Bool-cases, ltb, ltb→lt, All-mono, Option, none, some, List, get_elem?, All, All-In, In,
  two_pow-suc,
}
use native.Mathlib.Nat.{pow-le-pow_right}
use pinyon.TwoMath.{align_up_to_power}
use pinyon.Region.{Region, words, inside, halve, fits, aligned_to}
use pinyon.PageAllocator.{
  Backend, BrokeredAllocation, no_allocation, max_depth, depth_from_page_length, find_free_pages,
  trim_loop, remove_node,
}
use pinyon.PageAllocator.Calls.{
  left_half, trim_cost, brokered, trim_aligned_region, remove_and_trim_pages, allocate,
}
use pinyon.PageAllocator.Nodes.{Node, NodeAllocator}
use pinyon.PageAllocator.Lists.{Shaped-get_elem?}
use pinyon.PageAllocator.Depth.{
  depth_from_page_length-two_pow, depth_from_page_length_floor, min_depth_least,
}
use pinyon.PageAllocator.Invariant.{Placed, cover, Inv, spare, remove_node_lem}
use pinyon.PageAllocator.Find.{found, missing, find_from-Found}
use pinyon.PageAllocator.Trim.{AreHalves, Trimmed, trim_loop-Trimmed}

-- Two powers of two in order have their exponents in order.
pub exponent_le : (n d e : ℕ) → n ≤ 2 ^ e → 2 ^ d < 2 * n → d ≤ e
exponent_le n d e h k =
    ground (arith, two_pow-suc e, λ (h : suc e ≤ d). pow-le-pow_right {n = 2} (omega arith) h)

-- A free region that has the pages and the alignment asked for.
abbrev pub Suits : ℕ → ℕ → Node → Type 0
Suits num_pages page_alignment node =
    (num_pages ≤ node.region.length) × (node.region.offset % page_alignment ≡ 0)

abbrev pub NoneFree : (Node → Type 0) → List (List Node) → Type 0
NoneFree P lists =
    (d : ℕ) (list : List Node) → get_elem? lists d ≡ some list → All (λ node. ¬ P node) list

-- The parts of a call, put together.
module _ {S : Type 0} (nodes : NodeAllocator S) (num_pages page_alignment : ℕ) (b : Backend S) where
  allocate_null :
      find_free_pages num_pages page_alignment b.free_lists ≡ some none
      → allocate nodes num_pages page_alignment b ≡ some (no_allocation, b)
  unfolding allocate
  allocate_null e = ground (arith, e)

  allocate_node :
      {node : Node} {b₁ b₂ : Backend S} {r : Region} (d depth : ℕ)
      → find_free_pages num_pages page_alignment b.free_lists ≡ some (some node)
      → depth_from_page_length node.region.length ≡ d
      → remove_node nodes d node b ≡ some b₁
      → trim_loop nodes left_half
          (d + 2)
          node.region
          d
          (depth_from_page_length (align_up_to_power 32 num_pages))
          b₁
        ≡ some ((r, depth), b₂)
      → allocate nodes num_pages page_alignment b ≡ some (brokered r (trim_cost d depth), b₂)
  unfolding allocate remove_and_trim_pages trim_aligned_region
  allocate_node d depth e same f g = ground (arith, e, same, f, g)

module _ {S : Type 0} (nodes : NodeAllocator S) where
  -- The node allocator has refused, in some state.
  abbrev pub Refusal : Type 0
  Refusal = (s : S) × (t : S) × nodes.IsValid s × (nodes.allocate s ≡ some (none, t))

  -- Either no free region suits and nothing changes; or a region of `2 ^ exponent` pages is given
  -- out, which suits, was free, and is no longer free, while every other page is as free as before.
  -- It is less than twice as long as asked for, unless the node allocator refused.
  pub data Allocated (num_pages page_alignment : ℕ) (b : Backend S)
      (r : Option (BrokeredAllocation × Backend S)) : Type 0 where
    failed :
        r ≡ some (no_allocation, b)
        → NoneFree (Suits num_pages page_alignment) b.free_lists
        → Allocated num_pages page_alignment b r
    given :
        (given_region : Region) (exponent cost : ℕ) (b' : Backend S)
        → r ≡ some (brokered given_region cost, b')
        → Inv nodes b'
        → given_region.length ≡ 2 ^ exponent
        → given_region.offset + given_region.length < words
        → num_pages ≤ given_region.length
        → given_region.offset % page_alignment ≡ 0
        → ((p : ℕ) → cover p b'.free_lists + inside p given_region ≡ cover p b.free_lists)
        → (given_region.length < 2 * num_pages) ⊎ Refusal
        → Allocated num_pages page_alignment b r

  left_half-AreHalves :
      (o : ℕ) (r kept freed : Region)
      → r.offset ≡ o
      → left_half r ≡ some (kept, freed)
      → AreHalves r kept freed × (kept.offset ≡ o)
  unfolding left_half halve
  left_half-AreHalves o r kept freed q e = (inl (ground arith, ground arith), ground arith)

  -- Nodes below the depth where the search starts are too short.
  missing-NoneFree :
      (num_pages page_alignment : ℕ) (b : Backend S)
      → Inv nodes b
      → 0 < num_pages
      → ((d : ℕ) (list : List Node)
          → depth_from_page_length num_pages ≤ d
          → get_elem? b.free_lists d ≡ some list
          → All
              (λ node.
                (fits node.region num_pages && aligned_to node.region page_alignment) ≡ false)
              list)
      → NoneFree (Suits num_pages page_alignment) b.free_lists
  unfolding fits aligned_to
  missing-NoneFree num_pages page_alignment b inv pos nothing d list at =
      elim (Bool-cases (ltb d (depth_from_page_length num_pages))) [
        | inl low ↦
            All-mono list
              (λ node placed suits. absurd (
                omega (
                  arith,
                  placed.0,
                  suits.0,
                  two_pow-suc d,
                  (depth_from_page_length_floor num_pages pos).0,
                  pow-le-pow_right {n = 2} (omega arith) (ltb→lt _ _ low),
                )))
              (Shaped-get_elem? Placed 0 d d b.free_lists list (omega arith) inv.placed at)
        | inr high ↦
            All-mono list (λ node failed suits. ground (arith, failed, suits.0, suits.1))
              (nothing d list (ground arith) at)
      ]

  exact_or_refused :
      (num_pages end o : ℕ) (b b' : Backend S) (r : Region) (d : ℕ) (res : Region × ℕ)
      → Trimmed nodes left_half (λ r. r.offset ≡ o) (left_half-AreHalves o) b r d end res b'
      → 2 ^ end < 2 * num_pages
      → (res.0.length < 2 * num_pages) ⊎ Refusal
  unfolding left_half
  exact_or_refused num_pages end o b b' r d res t tight = elim t.stopped [
    | inl (e, _) ↦ inl (omega (arith, t.power, ap (λ (k : ℕ). 2 ^ k) e))
    | inr (inl (broke, _)) ↦ absurd cc
    | inr (inr why) ↦ inr why
  ]

  given_lem :
      (num_pages page_alignment d : ℕ) (list : List Node) (node : Node) (b : Backend S)
      → Inv nodes b
      → 0 < num_pages
      → num_pages ≤ 2 ^ 20
      → max_depth ≤ spare nodes b
      → find_free_pages num_pages page_alignment b.free_lists ≡ some (some node)
      → d < max_depth
      → get_elem? b.free_lists d ≡ some list
      → In node list
      → Suits num_pages page_alignment node
      → Allocated num_pages page_alignment b (allocate nodes num_pages page_alignment b)
  given_lem num_pages page_alignment d list node b inv pos small room hit top at i suits =
      let (e, word) =
        All-In (Placed d) list node
          (Shaped-get_elem? Placed 0 d d b.free_lists list (omega arith) inv.placed at) i in
      let depth : depth_from_page_length node.region.length ≡ d =
        ap depth_from_page_length e ∙ depth_from_page_length-two_pow d in
      let (enough, tight) = min_depth_least num_pages pos (omega arith) in
      let end = depth_from_page_length (align_up_to_power 32 num_pages) in
      let down : end ≤ d = exponent_le num_pages end d (omega (arith, suits.0)) tight in
      let (b₁, removed, inv₁, less, sp) = remove_node_lem nodes d node list b inv at i in
      let ((r, last), b₂, run, t) =
        trim_loop-Trimmed nodes left_half (λ r. r.offset ≡ node.region.offset)
          (left_half-AreHalves node.region.offset) (d + 2) node.region d end b₁ (omega arith) inv₁
          down (omega arith) (omega arith) e word refl in
      let upper = pow-le-pow_right {n = 2} (omega arith) t.at_least in
      given r t.exponent (trim_cost d last) b₂
        (allocate_node nodes num_pages page_alignment b d last hit depth removed run) t.inv t.power
        t.in_word (omega (arith, t.power)) (rw t.keeps suits.1)
        (λ p. omega (arith, t.conserved p, less p))
        (exact_or_refused num_pages end node.region.offset b₁ b₂ node.region d (r, last) t tight)

  -- With the invariant, room for the nodes of one call, and a request of 1 to `2 ^ 20` pages,
  -- `allocate` is defined and does what `Allocated` says: it fails, and changes nothing, only if no
  -- free region suits; otherwise it hands out pages that were free, and keeps the invariant.
  pub allocate-Allocated :
      (num_pages page_alignment : ℕ) (b : Backend S)
      → Inv nodes b
      → max_depth ≤ spare nodes b
      → 0 < num_pages
      → num_pages ≤ 2 ^ 20
      → Allocated num_pages page_alignment b (allocate nodes num_pages page_alignment b)
  unfolding find_free_pages fits aligned_to
  allocate-Allocated num_pages page_alignment b inv room pos small =
      let start : depth_from_page_length num_pages ≤ max_depth =
        exponent_le num_pages (depth_from_page_length num_pages) max_depth (omega arith)
          (omega (arith, (depth_from_page_length_floor num_pages pos).0)) in
      elim (find_from-Found
        (λ node. fits node.region num_pages && aligned_to node.region page_alignment) b.free_lists
        inv.depths (max_depth + 1) (depth_from_page_length num_pages) (omega arith) start) [
          | found d list node hit low top at i ok ↦
              given_lem num_pages page_alignment d list node b inv pos small room hit top at i
                (ground (arith, ok), ground (arith, ok))
          | missing none' nothing ↦
              failed (allocate_null nodes num_pages page_alignment b none')
                (missing-NoneFree num_pages page_alignment b inv pos nothing)
        ]
