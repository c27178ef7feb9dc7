-- ===== src/FreeList/Free.antt =====
-- What `free` gives back, and what it loses.
use pinyon.Prelude.{
  ℕ, ◌+◌, ◌*◌, ◌%◌, ◌^◌, ◌<◌, ◌≤◌, ◌≡◌, refl, inl, inr, ap, arith, Bool, true, false, ◌&&◌, ltb,
  ◌==◌, Bool-cases, if◌then◌else◌, Option, none, some, List, [], ◌∷◌, ◌++◌, In, total,
}
use pinyon.FreeList.{
  FreeList, Allocation, words, header, update, to_node_ptr, is_null, are_contiguous, find_neighbors,
  adopt_right_node_size, adopt_right, free,
}
use pinyon.FreeList.Blocks.{
  count, in_block, cover, free_bytes, total-append, total_outside, total_once, remove-In,
}
use pinyon.FreeList.Allocate.{block_in_space, IsApart, count-le-cover, listed_once, ==_self}

-- What a neighbour that was found is: on the list, and beside the block.
abbrev IsLeft : FreeList → ℕ → Option ℕ → Type 0
IsLeft s node none = Unit
IsLeft s node (some x) = In x s.free_list × (x + header + s.size_at x ≡ node)

abbrev IsRight : FreeList → ℕ → Option ℕ → Type 0
IsRight s node none = Unit
IsRight s node (some x) = In x s.free_list × (node + header + s.size_at node ≡ x)

module _ (s : FreeList) (node : ℕ) where
  found-IsLeft :
      (left : Option ℕ) (x : ℕ)
      → In x s.free_list
      → IsLeft s node left
      → IsLeft s node
          (if is_null left && (ltb x node && are_contiguous s.size_at x node) then some x else left)
  unfolding are_contiguous
  found-IsLeft none x i l = elim (Bool-cases (ltb x node && are_contiguous s.size_at x node)) [
    | inl found ↦ rw found (i, ground (arith, found))
    | inr missed ↦ rw missed l
  ]
  found-IsLeft (some y) x i l = l

  found-IsRight :
      (is_left : Bool) (right : Option ℕ) (x : ℕ)
      → In x s.free_list
      → IsRight s node right
      → IsRight s node (
          if is_left
          then right
          else if is_null right && (ltb node x && are_contiguous s.size_at node x)
          then some x
          else right)
  unfolding are_contiguous
  found-IsRight true right x i r = r
  found-IsRight false none x i r =
      elim (Bool-cases (ltb node x && are_contiguous s.size_at node x)) [
        | inl found ↦ rw found (i, ground (arith, found))
        | inr missed ↦ rw missed r
      ]
  found-IsRight false (some y) x i r = r

  find_neighbors-found :
      (xs : List ℕ)
      → ((x : ℕ) → In x xs → In x s.free_list)
      → (left right : Option ℕ) → IsLeft s node left
      → IsRight s node right
      → IsLeft s node (find_neighbors s.size_at node xs left right).0
        × IsRight s node (find_neighbors s.size_at node xs left right).1
  unfolding find_neighbors
  find_neighbors-found [] sub left right l r = (l, r)
  find_neighbors-found (x ∷ xs) sub left right l r =
      let here = sub x (inl refl) in
      let is_left = is_null left && (ltb x node && are_contiguous s.size_at x node) in
      let l' = found-IsLeft left x here l in
      let r' = found-IsRight is_left right x here r in
      let rest = find_neighbors-found xs (λ y i. sub y (inr i)) _ _ l' r' in early _ _ _ l' r' rest
    where
      early :
          (left right : Option ℕ) (p : Option ℕ × Option ℕ)
          → IsLeft s node left
          → IsRight s node right
          → IsLeft s node p.0 × IsRight s node p.1
          → IsLeft s node (if is_null left then p else if is_null right then p else (left, right)).0
            × IsRight s node
                (if is_null left then p else if is_null right then p else (left, right)).1
      early none right p l r rest = rest
      early (some x) none p l r rest = rest
      early (some x) (some y) p l r rest = (l, r)

-- A sum over the blocks of the list.
abbrev measure : (ℕ → ℕ → ℕ) → FreeList → ℕ
measure m s = total (λ x. m x (s.size_at x)) s.free_list

-- The headers that a merge on this side swallows.
abbrev joined : Option ℕ → ℕ
joined none = 0
joined (some _) = 1

abbrev at_right : (ℕ → ℕ → ℕ) → FreeList → Option ℕ → ℕ
at_right m s none = 0
at_right m s (some right) = m right (s.size_at right)

abbrev right_size : FreeList → Option ℕ → ℕ
right_size s none = 0
right_size s (some right) = s.size_at right

abbrev IsElsewhere : ℕ → FreeList → Option ℕ → Type 0
IsElsewhere p s none = Unit
IsElsewhere p s (some right) = In right s.free_list × ((p == right) ≡ false)

-- The block `p` takes over its right neighbour, which leaves the list.
adopt_right_lem :
    (p : ℕ) (right : Option ℕ) (s : FreeList)
    → IsElsewhere p s right
    → s.size_at p + right_size s right < words
    → (s' : FreeList) × (adopt_right p right s ≡ some s')
      × (s'.size_at p ≡ s.size_at p + right_size s right)
      × (count p s'.free_list ≡ count p s.free_list)
      × (count p s.free_list ≡ 0
          → (m : ℕ → ℕ → ℕ) → measure m s' + at_right m s right ≡ measure m s)
      × (count p s.free_list ≡ 1
          → (m : ℕ → ℕ → ℕ)
          → measure m s' + at_right m s right + m p (s.size_at p)
            ≡ measure m s + m p (s.size_at p + right_size s right))
unfolding adopt_right adopt_right_node_size
adopt_right_lem p none s e small = (
  s,
  refl,
  omega arith,
  refl,
  λ once m. omega arith,
  λ once m. let same : s.size_at p + 0 ≡ s.size_at p = omega arith in omega (arith, ap (m p) same),
)
adopt_right_lem p (some right) s (i, other) small =
    let size' = update s.size_at p ((s.size_at p + s.size_at right) % words) in
    let (list, removed, sums) = remove-In right s.free_list i in
    let apart : (right == p) ≡ false = ground (arith, other) in
    let at_p : size' p ≡ s.size_at p + s.size_at right = rw (==_self p) (omega (arith, small)) in
    let at_r : size' right ≡ s.size_at right = rw apart in
    (
      record { size_at = size'; free_list = list },
      rw removed,
      at_p,
      ground (arith, sums (λ x. if x == p then 1 else 0), apart),
      λ fresh m. omega (
        arith,
        sums (λ x. m x (size' x)),
        ap (m right) at_r,
        total_outside (λ x. m x (s.size_at x)) (λ x. m x (size' x)) p s.free_list fresh
            (λ x e. rw e),
      ),
      λ once m. omega (
        arith,
        sums (λ x. m x (size' x)),
        ap (m right) at_r,
        ap (m p) at_p,
        total_once (λ x. m x (s.size_at x)) (λ x. m x (size' x)) p s.free_list once (λ x e. rw e),
      ),
    )

free_alone :
    (alloc : Allocation) (s s₁ : FreeList) (right : Option ℕ)
    → find_neighbors s.size_at (to_node_ptr alloc.ptr) s.free_list none none ≡ (none, right)
    → adopt_right (to_node_ptr alloc.ptr) right s ≡ some s₁
    → free alloc s
      ≡ some (
        s.size_at (to_node_ptr alloc.ptr),
        record s₁ { free_list = s₁.free_list ++ (to_node_ptr alloc.ptr ∷ []) },
      )
unfolding free
free_alone alloc s s₁ right e f = ground (arith, e, f)

free_left :
    (alloc : Allocation) (s s₁ : FreeList) (left : ℕ) (right : Option ℕ)
    → find_neighbors s.size_at (to_node_ptr alloc.ptr) s.free_list none none ≡ (some left, right)
    → adopt_right left right
        (record s { size_at = adopt_right_node_size left (to_node_ptr alloc.ptr) s.size_at })
      ≡ some s₁
    → free alloc s ≡ some (s.size_at (to_node_ptr alloc.ptr), s₁)
unfolding free
free_left alloc s s₁ left right e f = ground (arith, e, f)

-- What a state is after `free` took back the block at `node`: the bytes that became free are the
-- block's, and each merge loses the bytes of a header.
record Merged (node : ℕ) (merges : ℕ) (s s' : FreeList) : Type 0 where
  within : (byte : ℕ) → cover byte s' ≤ cover byte s + in_block byte node (s.size_at node)
  lost : free_bytes s' + header * merges ≡ free_bytes s + header + s.size_at node

module _ (s : FreeList) (node : ℕ) where
  alone-Merged :
      (right : Option ℕ) (s₁ : FreeList)
      → IsRight s node right
      → s₁.size_at node ≡ s.size_at node + right_size s right
      → ((m : ℕ → ℕ → ℕ) → measure m s₁ + at_right m s right ≡ measure m s)
      → Merged node (0 + joined right) s (record s₁ { free_list = s₁.free_list ++ (node ∷ []) })
  alone-Merged right s₁ r grown sums = record {
    within = λ byte.
        let here = total-append (λ x. in_block byte x (s₁.size_at x)) s₁.free_list (node ∷ []) in
        omega
          (arith, here, sums (in_block byte), ap (in_block byte node) grown, spread right r byte);
    lost =
        let here = total-append (λ x. header + s₁.size_at x) s₁.free_list (node ∷ []) in
        omega (arith, here, sums (λ _ size. header + size), grown, swallowed right);
  }
    where
      spread :
          (right : Option ℕ)
          → IsRight s node right
          → (byte : ℕ)
          → in_block byte node (s.size_at node + right_size s right)
            ≤ in_block byte node (s.size_at node) + at_right (in_block byte) s right
      spread none r byte =
          let same : s.size_at node + 0 ≡ s.size_at node = omega arith in
          omega (arith, ap (in_block byte node) same)
      spread (some x) (i, beside) byte = ground (arith, beside)

      swallowed :
          (right : Option ℕ)
          → at_right (λ _ size. header + size) s right ≡ right_size s right + header * joined right
      swallowed none = omega arith
      swallowed (some x) = omega arith

  left-Merged :
      (left : ℕ) (right : Option ℕ) (s₁ : FreeList)
      → left + header + s.size_at left ≡ node
      → IsRight s node right
      → ((m : ℕ → ℕ → ℕ)
          → measure m s₁ + at_right m s right + m left (s.size_at left)
            ≡ measure m s + m left (s.size_at left + s.size_at node + right_size s right))
      → Merged node (1 + joined right) s s₁
  left-Merged left none s₁ beside r sums = record {
    within = λ byte. ground (arith, sums (in_block byte), beside);
    lost = omega (arith, sums (λ _ size. header + size));
  }
  left-Merged left (some right) s₁ beside (i, beside') sums = record {
    within = λ byte. ground (arith, sums (in_block byte), beside, beside');
    lost = omega (arith, sums (λ _ size. header + size));
  }

-- What `free` returns: the size of the block, and the state in which its bytes are free again.
pub data FreedBlock (node : ℕ) (s : FreeList) : Option (ℕ × FreeList) → Type 0 where
  freed :
      (s' : FreeList) (left right : Option ℕ)
      → find_neighbors s.size_at node s.free_list none none ≡ (left, right)
      → IsApart s'
      → ((byte : ℕ) → cover byte s' ≤ cover byte s + in_block byte node (s.size_at node))
      → free_bytes s' + header * (joined left + joined right)
        ≡ free_bytes s + header + s.size_at node
      → FreedBlock node s (some (s.size_at node, s'))

module _ (alloc : Allocation) (s : FreeList) (apart : IsApart s)
    (own : (byte : ℕ)
      → cover byte s + in_block byte (to_node_ptr alloc.ptr) (s.size_at (to_node_ptr alloc.ptr))
        ≤ 1)
    (room : to_node_ptr alloc.ptr + header + s.size_at (to_node_ptr alloc.ptr) ≤ 2 ^ 32) where
  abbrev node : ℕ
  node = to_node_ptr alloc.ptr

  unlisted : count node s.free_list ≡ 0
  unlisted =
      let here : in_block node node (s.size_at node) ≡ 1 = ground arith in
      omega (arith, own node, here, count-le-cover node s.size_at s.free_list)

  still-IsApart : (merges : ℕ) (s' : FreeList) → Merged node merges s s' → IsApart s'
  still-IsApart merges s' merged = record {
    once = λ byte. omega (arith, merged.within byte, own byte);
    in_space = λ byte h. ground (arith, merged.within byte, apart.in_space byte h, room);
  }

  -- The two steps of a merge with the left neighbour in one.
  both :
      (left : ℕ) (right : Option ℕ) (m : ℕ → ℕ → ℕ) (s₁ : FreeList)
      → s.size_at left + s.size_at node < words
      → let s₀ : FreeList = record s { size_at = adopt_right_node_size left node s.size_at } in
        IsElsewhere left s right
        → measure m s₁ + at_right m s₀ right + m left (s₀.size_at left)
          ≡ measure m s₀ + m left (s₀.size_at left + right_size s₀ right)
        → measure m s + m left (s₀.size_at left) ≡ measure m s₀ + m left (s.size_at left)
        → measure m s₁ + at_right m s right + m left (s.size_at left)
          ≡ measure m s + m left (s.size_at left + s.size_at node + right_size s right)
  unfolding adopt_right_node_size
  both left none m s₁ small e sums once =
      let grown : s.size_at left + s.size_at node
          ≡ update s.size_at left ((s.size_at left + s.size_at node) % words) left =
        rw (==_self left) (omega (arith, small)) in
      omega (arith, sums, once, ap (λ k. m left (k + 0)) grown, ap (m left) grown)
  both left (some x) m s₁ small (i, other) sums once =
      let apart : (x == left) ≡ false = ground (arith, other) in
      let grown : s.size_at left + s.size_at node
          ≡ update s.size_at left ((s.size_at left + s.size_at node) % words) left =
        rw (==_self left) (omega (arith, small)) in
      let at_x : update s.size_at left ((s.size_at left + s.size_at node) % words) x ≡ s.size_at x =
        rw apart in
      omega (
        arith,
        sums,
        once,
        ap (m left) grown,
        ap (m x) at_x,
        ap (λ k. m left (k + s.size_at x)) grown,
        ap
            (λ k.
              m left (update s.size_at left ((s.size_at left + s.size_at node) % words) left + k))
            at_x,
      )

  after_alone :
      (right : Option ℕ)
      → IsRight s node right
      → find_neighbors s.size_at node s.free_list none none ≡ (none, right)
      → FreedBlock node s (free alloc s)
  after_alone right r e =
      let (s₁, adopted, grown, _, sums, _) =
        adopt_right_lem node right s (elsewhere right r) (fits right r) in
      let merged = alone-Merged s node right s₁ r grown (sums unlisted) in
      rw (free_alone alloc s s₁ right e adopted)
        (freed _ none right e (still-IsApart (0 + joined right) _ merged) merged.within merged.lost)
    where
      fits : (right : Option ℕ) → IsRight s node right → s.size_at node + right_size s right < words
      fits none r = omega arith
      fits (some x) (i, beside) = omega (arith, beside, block_in_space s apart x i)

      elsewhere : (right : Option ℕ) → IsRight s node right → IsElsewhere node s right
      elsewhere none r = tt
      elsewhere (some x) (i, beside) = (i, ground (arith, beside))

  -- The merged sizes of neighbours stay in the word.
  left_fits :
      (left : ℕ) (right : Option ℕ)
      → In left s.free_list
      → left + header + s.size_at left ≡ node
      → IsRight s node right
      → let size' = adopt_right_node_size left node s.size_at in
        size' left + right_size (record s { size_at = size' }) right < words
  unfolding adopt_right_node_size
  left_fits left none i beside r =
      let small : s.size_at left + s.size_at node < words = omega (arith, beside) in
      rw (==_self left) (omega (arith, small))
  left_fits left (some x) i beside (i', beside') =
      let other : (x == left) ≡ false = ground (arith, beside, beside') in
      let small : s.size_at left + s.size_at node + s.size_at x < words =
        omega (arith, beside, beside', block_in_space s apart x i') in
      rw (==_self left, other) (omega (arith, small))

  after_left :
      (left : ℕ) (right : Option ℕ)
      → In left s.free_list
      → left + header + s.size_at left ≡ node
      → IsRight s node right
      → find_neighbors s.size_at node s.free_list none none ≡ (some left, right)
      → FreedBlock node s (free alloc s)
  unfolding adopt_right_node_size
  after_left left right i beside r e =
      let s₀ : FreeList = record s { size_at = adopt_right_node_size left node s.size_at } in
      let (s₁, adopted, _, _, _, sums) =
        adopt_right_lem left right s₀ (elsewhere right r) (left_fits left right i beside r) in
      let once = listed_once s apart left i in
      let small : s.size_at left + s.size_at node < words = omega (arith, beside) in
      let merged = left-Merged s node left right s₁ beside r (λ m.
        both left right m s₁ small (elsewhere right r) (sums once m) (
          total_once (λ x. m x (s.size_at x)) (λ x. m x (s₀.size_at x)) left s.free_list once
            (λ x e. rw e))) in
      rw (free_left alloc s s₁ left right e adopted) (
        freed s₁ (some left) right e (still-IsApart (1 + joined right) s₁ merged) merged.within
          merged.lost)
    where
      elsewhere : (right : Option ℕ) → IsRight s node right → IsElsewhere left s right
      elsewhere none r = tt
      elsewhere (some x) (i, beside') = (i, ground (arith, beside, beside'))

  -- `free` of a block whose bytes are not free ends. It returns the size in the block's header, no byte
  -- becomes free that is not the block's, and no byte is free twice. Each neighbour that the block is
  -- merged with costs the 16 bytes of a header: the headers that the merge removes are not added to
  -- the size of the merged block.
  pub free-FreedBlock : FreedBlock node s (free alloc s)
  free-FreedBlock =
      let (l, r) = find_neighbors-found s node s.free_list (λ x i. i) none none tt tt in
      cases (find_neighbors s.size_at node s.free_list none none) refl l r
    where
      cases :
          (found : Option ℕ × Option ℕ)
          → find_neighbors s.size_at node s.free_list none none ≡ found
          → IsLeft s node found.0
          → IsRight s node found.1
          → FreedBlock node s (free alloc s)
      cases (none, right) e l r = after_alone right r e
      cases (some left, right) e (i, beside) r = after_left left right i beside r e
