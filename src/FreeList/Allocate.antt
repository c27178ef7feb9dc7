-- ===== src/FreeList/Allocate.antt =====
-- `allocate` hands out bytes that were free, once.
use pinyon.Prelude.{
  ℕ, ◌+◌, ◌-◌, ◌%◌, ◌^◌, ◌≤◌, ◌<◌, ◌≡◌, refl, inl, inr, ap, arith, true, false, ltb, leb, ◌==◌,
  Bool-cases, ltb→lt, ltb→le, Option-cases, Option, none, some, List, [], ◌∷◌, ◌++◌, In, All,
  All-mono, total,
}
use pinyon.TwoMath.{align_down_two, align_up_two}
use pinyon.TwoMath.Align.{align_down_two_floor}
use pinyon.Algorithm.{find_if}
use pinyon.Algorithm.Search.{find_if_sound, find_if_complete}
use pinyon.FreeList.{
  FreeList, Allocation, words, header, alignment, update, to_user_ptr, min_allocation_size,
  construct_node, remove, split, allocate,
}
use pinyon.FreeList.Blocks.{
  count, in_block, cover, total-append, total-In, total_outside, total_once, count-In, remove-In,
}

-- No byte is in two free blocks, and none is outside the address space.
pub record IsApart (s : FreeList) : Type 0 where
  pub once : (byte : ℕ) → cover byte s ≤ 1
  pub in_space : (byte : ℕ) → 2 ^ 32 ≤ byte → cover byte s ≡ 0

pub count-le-cover :
    (p : ℕ) (size_at : ℕ → ℕ) (xs : List ℕ)
    → count p xs ≤ total (λ node. in_block p node (size_at node)) xs
count-le-cover p size_at [] = omega arith
count-le-cover p size_at (x ∷ xs) = ground (arith, count-le-cover p size_at xs)

-- An address inside a block of the list is no other block's.
count_inside :
    (q node : ℕ) (size_at : ℕ → ℕ) (xs : List ℕ)
    → In node xs
    → (node == q) ≡ false
    → count q xs + in_block q node (size_at node) ≤ total (λ x. in_block q x (size_at x)) xs
count_inside q node size_at [] i other = absurd i
count_inside q node size_at (x ∷ xs) (inl e) other =
    let same : (x == q) ≡ false = ground (arith, e, other) in
    let here : in_block q node (size_at node) ≡ in_block q x (size_at x) =
      ap (λ k. in_block q k (size_at k)) e in
    rw same (omega (arith, here, count-le-cover q size_at xs))
count_inside q node size_at (x ∷ xs) (inr i) other =
    ground (arith, count_inside q node size_at xs i other)

module _ (s : FreeList) (apart : IsApart s) (node : ℕ) (i : In node s.free_list) where
  pub listed_once : count node s.free_list ≡ 1
  listed_once = omega (
    arith,
    count-In node s.free_list i,
    count-le-cover node s.size_at s.free_list,
    apart.once node,
  )

  pub block_in_space : node + header + s.size_at node ≤ 2 ^ 32
  block_in_space =
      let last = node + header + s.size_at node - 1 in
      let here = total-In (λ x. in_block last x (s.size_at x)) node s.free_list i in
      ground (arith, here, apart.in_space last)

  fresh_inside : (q : ℕ) → node < q → q < node + header + s.size_at node → count q s.free_list ≡ 0
  fresh_inside q lo hi =
      let other : (node == q) ≡ false = ground arith in
      ground (arith, count_inside q node s.size_at s.free_list i other, apart.once q)

-- What `split` leaves: the same free bytes, with the node's block cut to less than 32 bytes more than
-- asked for.
pub record SplitAt (node requested_size : ℕ) (s s' : FreeList) : Type 0 where
  listed : In node s'.free_list
  enough : requested_size ≤ s'.size_at node
  tight : s'.size_at node < requested_size + 32
  same : (byte : ℕ) → cover byte s' ≡ cover byte s

pub ==_self : (a : ℕ) → (a == a) ≡ true
==_self a = ground arith

in_block-cut :
    (byte node kept size : ℕ)
    → kept + header < size
    → in_block byte node kept + in_block byte (node + header + kept) (size - kept - header)
      ≡ in_block byte node size
in_block-cut byte node kept size room = ground arith

In-append_left : (p : ℕ) (xs ys : List ℕ) → In p xs → In p (xs ++ ys)
In-append_left p [] ys i = absurd i
In-append_left p (x ∷ xs) ys (inl e) = inl e
In-append_left p (x ∷ xs) ys (inr i) = inr (In-append_left p xs ys i)

min_allocation_size_lem : min_allocation_size alignment ≡ 24
unfolding min_allocation_size align_up_two
min_allocation_size_lem = refl

module _ (s : FreeList) (apart : IsApart s) (node requested_size : ℕ) (i : In node s.free_list)
    (fits : requested_size ≤ s.size_at node) where
  -- The cover when the block at `node` is cut to `kept` bytes and the rest becomes a block.
  cover_cut :
      (kept : ℕ)
      → kept + header < s.size_at node
      → (byte : ℕ)
      → cover byte (record {
        size_at =
            update
              (update s.size_at node kept)
              (to_user_ptr node kept)
              (s.size_at node - kept - header);
        free_list = s.free_list ++ (to_user_ptr node kept ∷ []);
      })
        ≡ cover byte s
  cover_cut kept room byte =
      let q = to_user_ptr node kept in
      let size₁ = update s.size_at node kept in
      let size₂ = update size₁ q (s.size_at node - kept - header) in
      let f = λ (x : ℕ). in_block byte x (s.size_at x) in
      let g = λ (x : ℕ). in_block byte x (size₁ x) in
      let h = λ (x : ℕ). in_block byte x (size₂ x) in
      let fresh = fresh_inside s apart node i q (omega arith) (omega arith) in
      let cut = total_once f g node s.free_list (listed_once s apart node i) (λ x e. rw e) in
      let rest = total_outside g h q s.free_list fresh (λ x e. rw e) in
      let at_q : h q ≡ in_block byte q (s.size_at node - kept - header) = rw (==_self q) in
      let at_node : in_block byte node (size₁ node) ≡ in_block byte node kept = rw (==_self node) in
      omega (
        arith,
        total-append h s.free_list (q ∷ []),
        cut,
        rest,
        at_q,
        at_node,
        in_block-cut byte node kept (s.size_at node) room,
      )

  abbrev remaining : ℕ
  remaining = align_down_two 32 (s.size_at node - requested_size) alignment

  remaining_bounds :
      (remaining ≤ s.size_at node - requested_size)
      × (s.size_at node - requested_size < remaining + 8)
  remaining_bounds =
      let space = block_in_space s apart node i in
      let (_, lo, hi) =
        align_down_two_floor 32 3 (s.size_at node - requested_size) (omega arith) (omega arith) in
      (lo, hi)

  split_long :
      24 < remaining
      → split node requested_size s ≡ (record {
        size_at =
            update
              (update s.size_at node (s.size_at node - remaining))
              (to_user_ptr node (s.size_at node - remaining))
              ((remaining + words - header) % words);
        free_list = s.free_list ++ (to_user_ptr node (s.size_at node - remaining) ∷ []);
      })
  unfolding split construct_node
  split_long long = ground (arith, min_allocation_size_lem)

  split_short : remaining ≤ 24 → split node requested_size s ≡ s
  unfolding split
  split_short short = ground (arith, min_allocation_size_lem)

  split-SplitAt : SplitAt node requested_size s (split node requested_size s)
  split-SplitAt = elim (Bool-cases (ltb 24 remaining)) [
    | inl long ↦
        let (lo, hi) = remaining_bounds in
        let more = ltb→lt 24 remaining long in
        let kept = s.size_at node - remaining in
        let space = block_in_space s apart node i in
        let other : (node == to_user_ptr node kept) ≡ false = ground arith in
        rw (split_long more) (record {
          listed = In-append_left node s.free_list _ i;
          enough = rw (other, ==_self node) (omega arith);
          tight = rw (other, ==_self node) (omega arith);
          same = λ byte.
              let e : (remaining + words - header) % words ≡ s.size_at node - kept - header =
                omega arith in
              rw e (cover_cut kept (omega arith) byte);
        })
    | inr short ↦
        let (lo, hi) = remaining_bounds in
        let less = ltb→le 24 remaining short in
        rw (split_short less)
          (record { listed = i; enough = fits; tight = omega arith; same = λ byte. refl })
  ]

-- What `allocate` can return: no block is long enough and nothing changes, or a block is taken out
-- whose bytes, header included, were free and are free no more, while every other byte stays as it was; the blocks are still apart.
pub data TakenBlock (requested_size : ℕ) (s : FreeList)
    : Option (Allocation × FreeList) → Type 0 where
  failed :
      All (λ node. s.size_at node < requested_size) s.free_list
      → TakenBlock requested_size s (some (record { ptr = 0; size = 0 }, s))
  given :
      (node size : ℕ) (s' : FreeList)
      → requested_size ≤ size
      → size < requested_size + 32
      → s'.size_at node ≡ size
      → IsApart s'
      → ((byte : ℕ) → cover byte s' + in_block byte node size ≡ cover byte s)
      → TakenBlock requested_size s (some (record { ptr = to_user_ptr node 0; size = size }, s'))

allocate-missing :
    (requested_size : ℕ) (s : FreeList)
    → find_if (λ node. leb requested_size (s.size_at node)) s.free_list ≡ none
    → allocate requested_size s ≡ some (record { ptr = 0; size = 0 }, s)
unfolding allocate
allocate-missing requested_size s e = ground (arith, e)

allocate-found :
    (requested_size : ℕ) (s : FreeList) (node : ℕ) (list : List ℕ)
    → find_if (λ node. leb requested_size (s.size_at node)) s.free_list ≡ some node
    → remove node (split node requested_size s).free_list ≡ some list
    → allocate requested_size s
      ≡ some (
        record { ptr = to_user_ptr node 0; size = (split node requested_size s).size_at node },
        record (split node requested_size s) { free_list = list },
      )
unfolding allocate
allocate-found requested_size s node list e f = ground (arith, e, f)

-- `allocate` on free blocks that are apart fails only if no block is long enough, and changes nothing
-- then. Otherwise it returns a pointer behind the header of a block of at least the requested size and
-- less than 32 bytes more: the bytes of the block and its header were free and leave the free list, and
-- the other bytes stay free as often as they were, also those of a block that was split.
pub allocate-TakenBlock :
    (requested_size : ℕ) (s : FreeList)
    → IsApart s
    → TakenBlock requested_size s (allocate requested_size s)
allocate-TakenBlock requested_size s apart =
    elim (Option-cases (find_if (λ node. leb requested_size (s.size_at node)) s.free_list)) [
      | inl e ↦ rw (allocate-missing requested_size s e) (
          failed (
            All-mono s.free_list (λ node f. ground (arith, f))
              (find_if_complete (λ node. leb requested_size (s.size_at node)) s.free_list e)))
      | inr (node, e) ↦
          let (i, fits) =
            find_if_sound (λ node. leb requested_size (s.size_at node)) s.free_list node e in
          let at = split-SplitAt s apart node requested_size i (ground (arith, fits)) in
          let s₁ = split node requested_size s in
          let (list, removed, sums) = remove-In node s₁.free_list at.listed in
          rw (allocate-found requested_size s node list e removed) (
            given node (s₁.size_at node) (record s₁ { free_list = list }) at.enough at.tight refl
              (record {
                once = λ byte. omega (arith, bytes s₁ node list at.same sums byte, apart.once byte);
                in_space = λ byte h.
                    omega (arith, bytes s₁ node list at.same sums byte, apart.in_space byte h);
              })
              (bytes s₁ node list at.same sums))
    ]
  where
    bytes :
        (s₁ : FreeList) (node : ℕ) (list : List ℕ)
        → ((byte : ℕ) → cover byte s₁ ≡ cover byte s)
        → ((f : ℕ → ℕ) → total f s₁.free_list ≡ f node + total f list)
        → (byte : ℕ)
        → cover byte (record s₁ { free_list = list }) + in_block byte node (s₁.size_at node)
          ≡ cover byte s
    bytes s₁ node list same sums byte =
        omega (arith, same byte, sums (λ x. in_block byte x (s₁.size_at x)))
