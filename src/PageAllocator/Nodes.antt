-- ===== src/PageAllocator/Nodes.antt =====
-- List nodes, the list operations on them, and what the backend asks of the allocator of nodes.
use pinyon.Prelude.{
  ℕ, ◌+◌, ◌≤◌, ◌<◌, ◌≡◌, ◌==◌, if◌then◌else◌, Option, none, some, ◌>>=◌, List, [], ◌∷◌, ◌++◌,
}
use pinyon.Region.{Region}

pub record Node : Type 0 where
  pub ptr : ℕ
  pub region : Region

-- ManualLinkedList::remove; `none` if the node is not in this list.
unfoldable pub remove : ℕ → List Node → Option (List Node)
remove p [] = none
remove p (x ∷ xs) =
    let rest : Option (List Node) = remove p xs >>= λ ys. some (x ∷ ys) in
    if x.ptr == p then some xs else rest

-- ManualLinkedList::insert_after; behind the tail, if the pointer is null.
unfoldable pub insert_after_ptr : ℕ → Node → List Node → Option (List Node)
insert_after_ptr p node [] = none
insert_after_ptr p node (x ∷ xs) =
    let rest : Option (List Node) = insert_after_ptr p node xs >>= λ ys. some (x ∷ ys) in
    if x.ptr == p then some (x ∷ node ∷ xs) else rest

unfoldable pub insert_after : Option Node → Node → List Node → Option (List Node)
unfolding insert_after_ptr
insert_after none node list = some (list ++ (node ∷ []))
insert_after (some x) node list = insert_after_ptr x.ptr node list

-- The interface to SlabAllocator<Node>: its calls, of which `none` is undefined behaviour and
-- `some none` a failed allocation, and what a caller may rely on. `live` counts how often an address
-- is given out, and `spare` is a number of allocations that are certain to be defined.
pub record NodeAllocator (S : Type 0) : Type 1 where
  pub allocate : S → Option (Option ℕ × S)
  pub free : S → ℕ → Option S
  pub IsValid : S → Type 0
  pub live : S → ℕ → ℕ
  pub spare : S → ℕ
  pub live_le : (s : S) (p : ℕ) → IsValid s → live s p ≤ 1
  pub allocate_some :
      (s t : S) (p : ℕ)
      → IsValid s
      → allocate s ≡ some (some p, t)
      → IsValid t
        × (live s p ≡ 0)
        × ((q : ℕ) → live t q ≡ (if p == q then 1 else live s q))
        × (spare s ≤ spare t + 1)
  pub allocate_none :
      (s t : S)
      → IsValid s
      → allocate s ≡ some (none, t)
      → IsValid t × ((q : ℕ) → live t q ≡ live s q) × (spare s ≤ spare t + 1)
  pub allocate_defined :
      (s : S) → IsValid s → 0 < spare s → (r : Option ℕ × S) × (allocate s ≡ some r)
  pub free_lem :
      (s : S) (p : ℕ)
      → IsValid s
      → live s p ≡ 1
      → (t : S) × (free s p ≡ some t)
        × IsValid t
        × ((q : ℕ) → live t q ≡ (if p == q then 0 else live s q))
        × (spare s ≤ spare t)
