-- ===== src/LinkedList.antt =====
-- ManualLinkedList of pine/linked_list.hpp on memory: the pointers of a node are two maps on
-- addresses, and the null pointer is 0. The sequences that the allocators' models keep are what such
-- a list represents.
pub mod Chains
pub mod Insert
pub mod Remove
pub mod Sequences
mod Tests
use pinyon.Prelude.{
  ℕ, zero, suc, ◌+◌, ◌-◌, ◌%◌, ◌^◌, Bool, true, false, ◌&&◌, ◌==◌, if◌then◌else◌, Option, none,
  some, ◌>>=◌, List, [], ◌∷◌,
}

abbrev pub word : ℕ
word = 2 ^ 32

-- The nodes of the memory, and `m_head`, `m_tail` and `m_length` of a list.
pub record ManualLinkedList : Type 0 where
  pub next : ℕ → ℕ
  pub prev : ℕ → ℕ
  pub head : ℕ
  pub tail : ℕ
  pub length : ℕ

abbrev pub update : (ℕ → ℕ) → ℕ → ℕ → ℕ → ℕ
update f p v q = if q == p then v else f q

-- Node::Node
unfoldable pub construct : (node : ℕ) → ManualLinkedList → ManualLinkedList
construct node l = record l { next = update l.next node 0; prev = update l.prev node 0 }

-- Node::~Node
unfoldable pub destroy : (node : ℕ) → ManualLinkedList → ManualLinkedList
destroy node l =
    let prev = l.prev node in
    let next = l.next node in
    let next₀ = update l.next node 0 in
    let prev₀ = update l.prev node 0 in
    record l {
      next = if prev == 0 then next₀ else update next₀ prev next;
      prev = if next == 0 then prev₀ else update prev₀ next prev;
    }

unfoldable pub insert_after : (after new_node : ℕ) → ManualLinkedList → ManualLinkedList
insert_after after new_node l =
    let after' = if after == 0 then l.tail else after in
    let next = l.next after' in
    let prev₀ = update l.prev new_node after' in
    let next₀ = update l.next after' new_node in
    if l.head == 0
    then record l { head = new_node; tail = new_node; length = (l.length + 1) % word }
    else if next == 0
    then record l { next = next₀; prev = prev₀; tail = new_node; length = (l.length + 1) % word }
    else record l {
      next = update next₀ new_node next;
      prev = update prev₀ next new_node;
      length = (l.length + 1) % word;
    }

unfoldable pub append : (new_node : ℕ) → ManualLinkedList → ManualLinkedList
append new_node l = insert_after l.tail new_node l

unfoldable pub remove : (node : ℕ) → ManualLinkedList → ManualLinkedList
remove node l =
    let prev = l.prev node in
    let next = l.next node in
    record (destroy node l) {
      head = if node == l.head then next else l.head;
      tail = if node == l.tail then if prev == 0 then next else prev else l.tail;
      length = (l.length + word - 1) % word;
    }

-- The move constructor: the new list, and the list that it was made from.
unfoldable pub move : ManualLinkedList → ManualLinkedList × ManualLinkedList
move other = (other, record other { head = 0; tail = 0; length = 0 })

-- The loop of ~ManualLinkedList from `next` on; the null pointer ends it.
unfoldable pub destroy_from : (rounds next : ℕ) → ManualLinkedList → Option ManualLinkedList
destroy_from zero next l = if next == 0 then some l else none
destroy_from (suc rounds) next l =
    let rest = destroy_from rounds (l.next next) (destroy next l) in
    if next == 0 then some l else rest

-- PtrIter over the list: `m_ptr` and `m_at_end`.
pub record Iter : Type 0 where
  pub ptr : ℕ
  pub at_end : Bool

unfoldable pub iter_begin : ManualLinkedList → Iter
iter_begin l = record { ptr = l.head; at_end = l.tail == 0 }

unfoldable pub iter_end : ManualLinkedList → Iter
iter_end l = record { ptr = l.tail; at_end = true }

-- `operator++`, which stays on the last node.
unfoldable pub iter_next : ManualLinkedList → Iter → Iter
iter_next l it =
    let next = l.next it.ptr in
    if next == 0 then record it { at_end = true } else record it { ptr = next }

abbrev pub same_flag : Bool → Bool → Bool
same_flag true b = b
same_flag false b = if b then false else true

unfoldable pub iter_eq : Iter → Iter → Bool
iter_eq a b = a.ptr == b.ptr && same_flag a.at_end b.at_end

-- The nodes that a range-based for loop visits from an iterator on; `none` if the rounds run out
-- before the iterator is the end.
unfoldable pub visit : (rounds : ℕ) → ManualLinkedList → Iter → Option (List ℕ)
visit zero l it = none
visit (suc rounds) l it =
    let rest : Option (List ℕ) = visit rounds l (iter_next l it) >>= λ xs. some (it.ptr ∷ xs) in
    if iter_eq it (iter_end l) then some [] else rest
