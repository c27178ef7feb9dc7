-- ===== src/LinkedList/Sequences.antt =====
-- The lists of nodes that PageAllocatorBackend's model keeps, and those of IntrusiveFreeList's, are
-- implemented by the linked lists in memory.
use pinyon.Prelude.{
  ℕ, suc, ◌+◌, ◌<◌, ◌≡◌, refl, sym, ap, subst, ◌∙◌, arith, inl, inr, true, false, ◌==◌, ==_iff,
  Bool-cases, Option, none, some, some-injective, ◌>>=◌, List, [], ◌∷◌, ◌++◌, length, In,
}
use pinyon.LinkedList.{
  ManualLinkedList, word, insert_after, remove, Iter, iter_begin, iter_end, iter_next, iter_eq,
  visit,
}
use pinyon.LinkedList.Chains.{last_or, IsOff, IsDistinct, IsLinked, Represents, not_zero}
use pinyon.LinkedList.Insert.{inserted, insert_after-Represents, insert_last-Represents}
use pinyon.LinkedList.Remove.{removed, remove-removed}
use pinyon.PageAllocator.Nodes
use pinyon.PageAllocator.Nodes.{Node}

abbrev pub addresses : List Node → List ℕ
addresses [] = []
addresses (x ∷ xs) = x.ptr ∷ addresses xs

-- The node pointer that an iterator of the model dereferences to.
abbrev pub pointer : Option Node → ℕ
pointer none = 0
pointer (some node) = node.ptr

addresses-append : (xs ys : List Node) → addresses (xs ++ ys) ≡ addresses xs ++ addresses ys
addresses-append [] ys = refl
addresses-append (x ∷ xs) ys = ap (λ zs. x.ptr ∷ zs) (addresses-append xs ys)

-- Inversions of the sequence operations, step by step.
module _ (p : ℕ) (node : Node) (x : Node) (xs : List Node) where
  insert_after_ptr-here :
      (x.ptr == p) ≡ true → Nodes.insert_after_ptr p node (x ∷ xs) ≡ some (x ∷ node ∷ xs)
  unfolding Nodes.insert_after_ptr
  insert_after_ptr-here h = rw h refl

  insert_after_ptr-later :
      (x.ptr == p) ≡ false
      → Nodes.insert_after_ptr p node (x ∷ xs)
        ≡ (Nodes.insert_after_ptr p node xs >>= λ ys. some (x ∷ ys))
  unfolding Nodes.insert_after_ptr
  insert_after_ptr-later h = rw h refl

  remove-here : (x.ptr == p) ≡ true → Nodes.remove p (x ∷ xs) ≡ some xs
  unfolding Nodes.remove
  remove-here h = rw h refl

  remove-later :
      (x.ptr == p) ≡ false → Nodes.remove p (x ∷ xs) ≡ (Nodes.remove p xs >>= λ ys. some (x ∷ ys))
  unfolding Nodes.remove
  remove-later h = rw h refl

insert_after_ptr-nil :
    (p : ℕ) (node : Node) (zs : List Node) → Nodes.insert_after_ptr p node [] ≡ some zs → ⊥
unfolding Nodes.insert_after_ptr
insert_after_ptr-nil p node zs e = cc

remove-nil : (p : ℕ) (zs : List Node) → Nodes.remove p [] ≡ some zs → ⊥
unfolding Nodes.remove
remove-nil p zs e = cc

mapped :
    (x : Node) (o : Option (List Node)) (zs : List Node)
    → (o >>= λ ys. some (x ∷ ys)) ≡ some zs
    → (ys : List Node) × (o ≡ some ys) × ((x ∷ ys) ≡ zs)
mapped x none zs e = cc
mapped x (some ys) zs e = (ys, refl, some-injective (x ∷ ys) zs e)

insert_after_ptr-inserted :
    (p : ℕ) (node : Node) (xs zs : List Node)
    → Nodes.insert_after_ptr p node xs ≡ some zs
    → In p (addresses xs) × (addresses zs ≡ inserted p node.ptr (addresses xs))
insert_after_ptr-inserted p node [] zs e = absurd (insert_after_ptr-nil p node zs e)
insert_after_ptr-inserted p node (x ∷ xs) zs e = elim (Bool-cases (x.ptr == p)) [
  | inl h ↦
      let same : (x ∷ node ∷ xs) ≡ zs =
        some-injective _ zs (sym (insert_after_ptr-here p node x xs h) ∙ e) in
      (inl (sym ((==_iff x.ptr p).0 h)), sym (ap addresses same) ∙ rw h refl)
  | inr h ↦
      let (ys, run, same) =
        mapped x (Nodes.insert_after_ptr p node xs) zs
          (sym (insert_after_ptr-later p node x xs h) ∙ e) in
      let (i, at) = insert_after_ptr-inserted p node xs ys run in
      (inr i, sym (ap addresses same) ∙ ap (λ k. x.ptr ∷ k) at ∙ rw h refl)
]

remove_ptr-removed :
    (p : ℕ) (xs zs : List Node)
    → Nodes.remove p xs ≡ some zs
    → In p (addresses xs) × (addresses zs ≡ removed p (addresses xs))
remove_ptr-removed p [] zs e = absurd (remove-nil p zs e)
remove_ptr-removed p (x ∷ xs) zs e = elim (Bool-cases (x.ptr == p)) [
  | inl h ↦
      let same : xs ≡ zs = some-injective xs zs (sym (remove-here p x x xs h) ∙ e) in
      (inl (sym ((==_iff x.ptr p).0 h)), sym (ap addresses same) ∙ rw h refl)
  | inr h ↦
      let (ys, run, same) = mapped x (Nodes.remove p xs) zs (sym (remove-later p x x xs h) ∙ e) in
      let (i, at) = remove_ptr-removed p xs ys run in
      (inr i, sym (ap addresses same) ∙ ap (λ k. x.ptr ∷ k) at ∙ rw h refl)
]

-- A new node that is not in the list and whose pointers are null.
pub record IsFresh (l : ManualLinkedList) (node : ℕ) (xs : List ℕ) : Type 0 where
  pub not_null : 0 < node
  pub off : IsOff node xs
  pub no_next : l.next node ≡ 0
  pub no_prev : l.prev node ≡ 0

-- If memory represents a list of nodes and the insertion of a fresh node into the sequence is defined,
-- then `insert_after` with the same pointers, null included, makes memory represent its result.
pub insert_after-refines :
    (l : ManualLinkedList) (point : Option Node) (node : Node) (list list' : List Node)
    → Represents l (addresses list)
    → IsFresh l node.ptr (addresses list)
    → length (addresses list) + 1 < word
    → Nodes.insert_after point node list ≡ some list'
    → Represents (insert_after (pointer point) node.ptr l) (addresses list')
unfolding Nodes.insert_after
insert_after-refines l none node list list' r f room e =
    let same : (list ++ (node ∷ [])) ≡ list' = some-injective _ list' e in
    subst (λ zs. Represents (insert_after 0 node.ptr l) zs)
      (sym (addresses-append list (node ∷ [])) ∙ ap addresses same)
      (insert_last-Represents l (addresses list) node.ptr r f.not_null f.off f.no_next room
        f.no_prev).0
insert_after-refines l (some x) node list list' r f room e =
    let (i, at) = insert_after_ptr-inserted x.ptr node list list' e in
    subst (λ zs. Represents (insert_after x.ptr node.ptr l) zs) (sym at)
      (insert_after-Represents l (addresses list) node.ptr r f.not_null f.off f.no_next room x.ptr
        i)

-- If memory represents a list of nodes and the removal from the sequence is defined, then `remove`
-- makes memory represent its result.
pub remove-refines :
    (l : ManualLinkedList) (p : ℕ) (list list' : List Node)
    → Represents l (addresses list)
    → length (addresses list) < word
    → Nodes.remove p list ≡ some list'
    → Represents (remove p l) (addresses list')
remove-refines l p list list' r room e =
    let (i, at) = remove_ptr-removed p list list' e in
    subst (λ zs. Represents (remove p l) zs) (sym at) (remove-removed l (addresses list) p r room i)

module _ (l : ManualLinkedList) where
  abbrev on_node : ℕ → Iter
  on_node p = record { ptr = p; at_end = false }

  visit-step :
      (rounds p : ℕ)
      → visit (suc rounds) l (on_node p)
        ≡ (visit rounds l (iter_next l (on_node p)) >>= λ xs. some (p ∷ xs))
  unfolding visit iter_eq iter_end
  visit-step rounds p = elim (Bool-cases (p == l.tail)) [ inl e ↦ rw e refl | inr e ↦ rw e refl ]

  visit-end :
      (rounds p : ℕ)
      → p ≡ l.tail
      → visit (suc rounds) l (record { ptr = p; at_end = true }) ≡ some []
  unfolding visit iter_eq iter_end
  visit-end rounds p e = let same : (p == l.tail) ≡ true = ground (arith, e) in rw same refl

  iter_next-last :
      (p : ℕ) → l.next p ≡ 0 → iter_next l (on_node p) ≡ record { ptr = p; at_end = true }
  unfolding iter_next
  iter_next-last p e = rw e refl

  iter_next-more : (p q : ℕ) → l.next p ≡ q → (q == 0) ≡ false → iter_next l (on_node p) ≡ on_node q
  unfolding iter_next
  iter_next-more p q e f = rw (e, f) refl

  visit-linked :
      (before x : ℕ) (xs : List ℕ)
      → IsLinked l.next l.prev before (x ∷ xs)
      → IsDistinct (x ∷ xs)
      → l.tail ≡ last_or x xs
      → visit (suc (suc (length xs))) l (on_node x) ≡ some (x ∷ xs)
  visit-linked before x [] (b, n, links) distinct last =
      visit-step 1 x
      ∙ ap (λ it. visit 1 l it >>= λ ys. some (x ∷ ys)) (iter_next-last x n)
      ∙ ap (λ o. o >>= λ ys. some (x ∷ ys)) (visit-end 0 x (sym last))
  visit-linked before x (y ∷ ys) (b, n, links) (px, off, distinct) last =
      visit-step (suc (suc (length ys))) x
      ∙ ap (λ it. visit (suc (suc (length ys))) l it >>= λ zs. some (x ∷ zs))
          (iter_next-more x y n (not_zero y distinct.0))
      ∙ ap (λ o. o >>= λ zs. some (x ∷ zs)) (visit-linked x y ys links distinct last)

last_not_zero : (x : ℕ) (xs : List ℕ) → IsDistinct (x ∷ xs) → (last_or x xs == 0) ≡ false
last_not_zero x [] (px, off, d) = not_zero x px
last_not_zero x (y ∷ ys) (px, off, d) = last_not_zero y ys d

-- If memory represents a sequence of nodes, then the loop from `begin` to `end` ends, with one test
-- more than there are nodes, and visits the nodes of the sequence in its order; also if there are none.
pub visit-Represents :
    (l : ManualLinkedList) (xs : List ℕ)
    → Represents l xs
    → visit (suc (length xs)) l (iter_begin l) ≡ some xs
unfolding visit iter_begin iter_eq iter_end
visit-Represents l [] r = rw (r.at_head, r.at_tail) refl
visit-Represents l (x ∷ xs) r =
    let begins : iter_begin l ≡ on_node l x =
      rw (r.at_head, r.at_tail, last_not_zero x xs r.distinct) refl in
    ap (λ it. visit (suc (suc (length xs))) l it) begins
    ∙ visit-linked l 0 x xs r.linked r.distinct r.at_tail
