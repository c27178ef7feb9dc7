-- ===== src/PageAllocator/Lists.antt =====
-- Sums and predicates over the free lists, and what insertion and removal do to them.
use pinyon.Prelude.{
  ℕ, zero, suc, ◌+◌, ◌≤◌, ◌≡◌, refl, inl, inr, ap, subst, arith, false, ◌==◌, if◌then◌else◌, some,
  List, [], ◌∷◌, ◌++◌, get_elem?, set, replicate, All, In, total,
}
use mathlib.Core.Option.{some-injective}
use pinyon.PageAllocator.Nodes.{Node, remove, insert_after}

abbrev pub tally : (Node → ℕ) → List (List Node) → ℕ
tally f lists = total (total f) lists

abbrev pub has_ptr : ℕ → Node → ℕ
has_ptr p node = if node.ptr == p then 1 else 0

pub tally-set :
    (f : Node → ℕ) (lists : List (List Node)) (d : ℕ) (list list' : List Node)
    → get_elem? lists d ≡ some list
    → tally f (set lists d list') + total f list ≡ tally f lists + total f list'
tally-set f [] d list list' e = cc
tally-set f (l ∷ lists) zero list list' e = omega (arith, ap (total f) (some-injective l list e))
tally-set f (l ∷ lists) (suc d) list list' e = omega (arith, tally-set f lists d list list' e)

pub total-get_elem? :
    (f : Node → ℕ) (lists : List (List Node)) (d : ℕ) (list : List Node)
    → get_elem? lists d ≡ some list
    → total f list ≤ tally f lists
total-get_elem? f [] d list e = cc
total-get_elem? f (l ∷ lists) zero list e = omega (arith, ap (total f) (some-injective l list e))
total-get_elem? f (l ∷ lists) (suc d) list e = omega (arith, total-get_elem? f lists d list e)

total-append_one :
    (f : Node → ℕ) (node : Node) (xs : List Node)
    → total f (xs ++ (node ∷ [])) ≡ total f xs + f node
total-append_one f node [] = omega arith
total-append_one f node (x ∷ xs) = omega (arith, total-append_one f node xs)

All-append_one :
    (P : Node → Type 0) (node : Node) (xs : List Node)
    → All P xs
    → P node
    → All P (xs ++ (node ∷ []))
All-append_one P node [] all h = (h, tt)
All-append_one P node (x ∷ xs) all h = (all.0, All-append_one P node xs all.1 h)

-- Insertion behind the head, or into the empty list, is defined.
pub insert_after-head :
    (node : Node) (xs : List Node)
    → (ys : List Node) × (insert_after (get_elem? xs 0) node xs ≡ some ys)
      × ((f : Node → ℕ) → total f ys ≡ total f xs + f node)
      × ((P : Node → Type 0) → All P xs → P node → All P ys)
unfolding insert_after
insert_after-head node [] = (node ∷ [], refl, λ f. omega arith, λ P all h. (h, tt))
insert_after-head node (x ∷ xs) =
    (x ∷ node ∷ xs, ground arith, λ f. omega arith, λ P all h. (all.0, (h, all.1)))

pub total-In : (f : Node → ℕ) (node : Node) (xs : List Node) → In node xs → f node ≤ total f xs
total-In f node [] i = absurd i
total-In f node (x ∷ xs) (inl e) = omega (arith, ap f e)
total-In f node (x ∷ xs) (inr i) = omega (arith, total-In f node xs i)

pub has_ptr_self : (node : Node) → has_ptr node.ptr node ≡ 1
has_ptr_self node = ground arith

-- A node whose address stands once in the list is removed, and no other.
pub remove-In :
    (node : Node) (xs : List Node)
    → In node xs
    → total (has_ptr node.ptr) xs ≤ 1
    → (ys : List Node) × (remove node.ptr xs ≡ some ys)
      × ((f : Node → ℕ) → total f xs ≡ f node + total f ys)
      × ((P : Node → Type 0) → All P xs → All P ys)
unfolding remove
remove-In node [] i once = absurd i
remove-In node (x ∷ xs) (inl e) once =
    (xs, ground arith, λ f. omega (arith, ap f e), λ P all. all.1)
remove-In node (x ∷ xs) (inr i) once =
    let (ys, found, sums, alls) = remove-In node xs i (omega arith) in
    let other : (x.ptr == node.ptr) ≡ false =
      ground (arith, once, total-In (has_ptr node.ptr) node xs i, has_ptr_self node) in
    (x ∷ ys, rw (other, found), λ f. omega (arith, sums f), λ P all. (all.0, alls P all.1))

-- The lists from depth `i` on hold the nodes that belong there.
abbrev pub Shaped : (ℕ → Node → Type 0) → ℕ → List (List Node) → Type 0
Shaped P i [] = Unit {0}
Shaped P i (l ∷ lists) = All (P i) l × Shaped P (suc i) lists

module _ (P : ℕ → Node → Type 0) where
  pub Shaped-get_elem? :
      (i d j : ℕ) (lists : List (List Node)) (list : List Node)
      → i + d ≡ j
      → Shaped P i lists
      → get_elem? lists d ≡ some list
      → All (P j) list
  Shaped-get_elem? i d j [] list e shaped found = cc
  Shaped-get_elem? i zero j (l ∷ lists) list e shaped found =
      let same : i ≡ j = omega arith in
      subst (All (P j)) (some-injective l list found) (subst (λ k. All (P k) l) same shaped.0)
  Shaped-get_elem? i (suc d) j (l ∷ lists) list e shaped found =
      Shaped-get_elem? (suc i) d j lists list (omega arith) shaped.1 found

  pub Shaped-set :
      (i d j : ℕ) (lists : List (List Node)) (list : List Node)
      → i + d ≡ j
      → Shaped P i lists
      → All (P j) list
      → Shaped P i (set lists d list)
  Shaped-set i d j [] list e shaped all = tt
  Shaped-set i zero j (l ∷ lists) list e shaped all =
      let same : j ≡ i = omega arith in (subst (λ k. All (P k) list) same all, shaped.1)
  Shaped-set i (suc d) j (l ∷ lists) list e shaped all =
      (shaped.0, Shaped-set (suc i) d j lists list (omega arith) shaped.1 all)

pub Shaped-replicate : (P : ℕ → Node → Type 0) (i n : ℕ) → Shaped P i (replicate n [])
Shaped-replicate P i zero = tt
Shaped-replicate P i (suc n) = (tt, Shaped-replicate P (suc i) n)

pub tally-replicate : (f : Node → ℕ) (n : ℕ) → tally f (replicate n []) ≡ 0
tally-replicate f zero = refl
tally-replicate f (suc n) = omega (arith, tally-replicate f n)
