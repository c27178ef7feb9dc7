-- ===== src/PageAllocator/Invariant.antt =====
-- The invariant of the backend, and that adding and removing a node keep it.
use pinyon.Prelude.{
  ℕ, ◌+◌, ◌^◌, ◌≤◌, ◌<◌, ◌≡◌, refl, inl, inr, sym, subst, ◌∙◌, arith, Option-cases, none, some,
  List, length, get_elem?, get_elem?-total, set, length-set, In,
}
use pinyon.Region.{Region, words, inside}
use pinyon.Algorithm.{ptr_begin, ptr_deref, lower_bound}
use pinyon.Algorithm.Distance.{distance-list}
use pinyon.PageAllocator.{
  Backend, max_depth, depth_from_page_length, insertion_point, insert_node, create_node,
  remove_node,
}
use pinyon.PageAllocator.Nodes.{Node, NodeAllocator}
use pinyon.PageAllocator.Lists.{
  tally, has_ptr, tally-set, total-get_elem?, insert_after-head, remove-In, total-In, has_ptr_self,
  Shaped, Shaped-get_elem?, Shaped-set,
}

-- A node belongs at a depth: its region has two to that power of pages, and stays in the word.
abbrev pub Placed : ℕ → Node → Type 0
Placed depth node =
    (node.region.length ≡ 2 ^ depth) × (node.region.offset + node.region.length < words)

-- How often a page is free.
abbrev pub cover : ℕ → List (List Node) → ℕ
cover p lists = tally (λ node. inside p node.region) lists

-- On a linked list `lower_bound` sees a length of 0 and returns `begin()`.
pub insertion_point-head :
    (list : List Node) (value : Region) → insertion_point list value ≡ some (get_elem? list 0)
unfolding insertion_point lower_bound ptr_deref ptr_begin
insertion_point-head list value = rw (distance-list list)

module _ {S : Type 0} where
  pub insert_node_lem :
      (depth : ℕ) (node : Node) (b : Backend S)
      → depth < length b.free_lists
      → Shaped Placed 0 b.free_lists
      → Placed depth node
      → (b' : Backend S) × (insert_node depth node b ≡ some b')
        × (b'.node_allocator ≡ b.node_allocator)
        × (length b'.free_lists ≡ length b.free_lists)
        × Shaped Placed 0 b'.free_lists
        × ((f : Node → ℕ) → tally f b'.free_lists ≡ tally f b.free_lists + f node)
  unfolding insert_node
  insert_node_lem depth node b room shaped placed =
      let (list, found) = get_elem?-total b.free_lists depth room in
      let (list', done, sums, alls) = insert_after-head node list in
      let all =
        Shaped-get_elem? Placed 0 depth depth b.free_lists list (omega arith) shaped found in
      (
        record b { free_lists = set b.free_lists depth list' },
        rw (found, insertion_point-head list node.region, done),
        refl,
        length-set b.free_lists depth list',
        Shaped-set Placed 0 depth depth b.free_lists list' (omega arith) shaped
            (alls (Placed depth) all placed),
        λ f. omega (arith, tally-set f b.free_lists depth list list' found, sums f),
      )

module _ {S : Type 0} (nodes : NodeAllocator S) where
  pub record Inv (b : Backend S) : Type 0 where
    pub valid : nodes.IsValid b.node_allocator
    pub depths : length b.free_lists ≡ max_depth
    pub placed : Shaped Placed 0 b.free_lists
    pub owned : (p : ℕ) → tally (has_ptr p) b.free_lists ≡ nodes.live b.node_allocator p

  abbrev pub spare : Backend S → ℕ
  spare b = nodes.spare b.node_allocator

  -- What `create_node` and `insert_node` do with a region: either the node allocator refuses and the
  -- lists stay, or the region's pages become free.
  pub data Released (depth : ℕ) (r : Region) (b : Backend S) : Type 0 where
    refused :
        (b' : Backend S)
        → create_node nodes r b ≡ some (none, b')
        → ((t : S) × (nodes.allocate b.node_allocator ≡ some (none, t)))
        → Inv b'
        → b'.free_lists ≡ b.free_lists
        → spare b ≤ spare b' + 1
        → Released depth r b
    released :
        (node : Node) (b' b'' : Backend S)
        → create_node nodes r b ≡ some (some (depth_from_page_length r.length, node), b')
        → insert_node depth node b' ≡ some b''
        → Inv b''
        → ((p : ℕ) → cover p b''.free_lists ≡ cover p b.free_lists + inside p r)
        → spare b ≤ spare b'' + 1
        → Released depth r b

  Released-some :
      (depth : ℕ) (r : Region) (b : Backend S) (p : ℕ) (t : S)
      → Inv b
      → depth < max_depth
      → r.length ≡ 2 ^ depth
      → r.offset + r.length < words
      → nodes.allocate b.node_allocator ≡ some (some p, t)
      → Released depth r b
  unfolding create_node
  Released-some depth r b p t inv room e small got =
      let (valid, fresh, live, sp) = nodes.allocate_some b.node_allocator t p inv.valid got in
      let b₁ : Backend S = record b { node_allocator = t } in
      let node : Node = record { ptr = p; region = r } in
      let (b₂, done, alloc, len, shaped, sums) =
        insert_node_lem depth node b₁ (omega (arith, inv.depths)) inv.placed (e, small) in
      released node b₁ b₂ (rw got) done
        (record {
          valid = rw alloc valid;
          depths = len ∙ inv.depths;
          placed = shaped;
          owned = λ q. rw alloc (ground (arith, sums (has_ptr q), inv.owned q, live q, fresh));
        })
        (λ q. sums (λ n. inside q n.region))
        (subst (λ s. spare b ≤ nodes.spare s + 1) (sym alloc) sp)

  Released-none :
      (depth : ℕ) (r : Region) (b : Backend S) (t : S)
      → Inv b
      → nodes.allocate b.node_allocator ≡ some (none, t)
      → Released depth r b
  unfolding create_node
  Released-none depth r b t inv got =
      let (valid, live, sp) = nodes.allocate_none b.node_allocator t inv.valid got in
      refused (record b { node_allocator = t }) (rw got) (t, got)
        (record {
          valid = valid;
          depths = inv.depths;
          placed = inv.placed;
          owned = λ q. inv.owned q ∙ sym (live q);
        })
        refl sp

  pub release :
      (depth : ℕ) (r : Region) (b : Backend S)
      → Inv b
      → 0 < spare b
      → depth < max_depth
      → r.length ≡ 2 ^ depth
      → r.offset + r.length < words
      → Released depth r b
  unfolding create_node
  release depth r b inv more room e small =
      let ((got, t), done) = nodes.allocate_defined b.node_allocator inv.valid more in
      elim (Option-cases got) [
        | inl nothing ↦ Released-none depth r b t inv (rw nothing at done)
        | inr (p, one) ↦ Released-some depth r b p t inv room e small (rw one at done)
      ]

  -- Removing a node that stands in its list takes away its pages and gives its memory back.
  pub remove_node_lem :
      (depth : ℕ) (node : Node) (list : List Node) (b : Backend S)
      → Inv b
      → get_elem? b.free_lists depth ≡ some list
      → In node list
      → (b' : Backend S) × (remove_node nodes depth node b ≡ some b')
        × Inv b'
        × ((p : ℕ) → cover p b.free_lists ≡ cover p b'.free_lists + inside p node.region)
        × (spare b ≤ spare b')
  unfolding remove_node
  remove_node_lem depth node list b inv found i =
      let below = total-get_elem? (has_ptr node.ptr) b.free_lists depth list found in
      let here = total-In (has_ptr node.ptr) node list i in
      let most = nodes.live_le b.node_allocator node.ptr inv.valid in
      let counted = inv.owned node.ptr in
      let self = has_ptr_self node in
      let (list', removed, sums, alls) = remove-In node list i (omega arith) in
      let (t, freed, valid, live, sp) =
        nodes.free_lem b.node_allocator node.ptr inv.valid (omega arith) in
      let all =
        Shaped-get_elem? Placed 0 depth depth b.free_lists list (omega arith) inv.placed found in
      (
        record { node_allocator = t; free_lists = set b.free_lists depth list' },
        rw (found, removed, freed),
        record {
          valid = valid;
          depths = length-set b.free_lists depth list' ∙ inv.depths;
          placed =
              Shaped-set Placed 0 depth depth b.free_lists list' (omega arith) inv.placed
                (alls (Placed depth) all);
          owned = λ q. ground (
            arith,
            inv.owned q,
            live q,
            tally-set (has_ptr q) b.free_lists depth list list' found,
            sums (has_ptr q),
            counted,
            below,
            here,
            most,
            self,
          );
        },
        λ p. omega (
          arith,
          tally-set (λ n. inside p n.region) b.free_lists depth list list' found,
          sums (λ n. inside p n.region),
        ),
        sp,
      )
