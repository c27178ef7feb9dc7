-- ===== src/Algorithm.antt =====
-- pine/algorithm.hpp, and the iterators of pine/iter.hpp that it runs on.
pub mod Search
pub mod Distance
use pinyon.Prelude.{
  ℕ, zero, suc, ◌+◌, ◌-◌, ◌/◌, Bool, true, false, ◌&&◌, ltb, ◌==◌, if◌then◌else◌, Option, none,
  some, ◌>>=◌, List, [], ◌∷◌, length, get_elem?,
}

-- The loop of `find_if` stops at the first item that passes.
module _ {ℓ} {A : Type ℓ} where
  unfoldable pub find_if : (A → Bool) → List A → Option A
  find_if pred [] = none
  find_if pred (x ∷ xs) = if pred x then some x else find_if pred xs

-- `PtrIter` over a list of nodes: the place of the node that it points to, and `m_at_end`. On the
-- empty list the pointer is null, which `deref` shows.
pub record PtrIter : Type 0 where
  pub pos : ℕ
  pub at_end : Bool

module _ {ℓ} {A : Type ℓ} where
  unfoldable pub ptr_begin : List A → PtrIter
  ptr_begin xs = record { pos = 0; at_end = length xs == 0 }

  unfoldable pub ptr_end : List A → PtrIter
  ptr_end xs = record { pos = length xs - 1; at_end = true }

  -- `operator++`: at the last node only the flag changes.
  unfoldable pub ptr_next : List A → PtrIter → PtrIter
  ptr_next xs it =
      if ltb (it.pos + 1) (length xs)
      then record it { pos = it.pos + 1 }
      else record it { at_end = true }

  unfoldable pub ptr_deref : List A → PtrIter → Option A
  ptr_deref xs it = get_elem? xs it.pos

same_flag : Bool → Bool → Bool
same_flag true b = b
same_flag false b = if b then false else true

unfoldable pub ptr_eq : PtrIter → PtrIter → Bool
unfolding same_flag
ptr_eq a b = a.pos == b.pos && same_flag a.at_end b.at_end

-- `distance` of iterators without random access: `while (begin != end) ++begin; return dist;`, on
-- fuel. `none` means that the fuel ran out.
module _ {ℓ} {A : Type ℓ} where
  unfoldable pub distance_loop : ℕ → List A → (begin end : PtrIter) → (dist : ℕ) → Option ℕ
  distance_loop zero xs begin end dist = none
  distance_loop (suc fuel) xs begin end dist =
      let rest = distance_loop fuel xs (ptr_next xs begin) end dist in
      if ptr_eq begin end then some dist else rest

  unfoldable pub distance : List A → (begin end : PtrIter) → Option ℕ
  unfolding distance_loop
  distance xs begin end = distance_loop (length xs + 1) xs begin end 0

-- `advance`, for steps of at least 0.
module _ {ℓ} {I : Type ℓ} where
  unfoldable pub advance : (I → I) → ℕ → I → I
  advance next zero it = it
  advance next (suc steps) it = advance next steps (next it)

-- The loop of `lower_bound` over any iterator, on fuel; `compare` is `compare(*it, value)`, and
-- `none` means a read outside the range, or that the fuel ran out.
module _ {ℓ κ} {I : Type ℓ} {A : Type κ} (deref : I → Option A) (next : I → I)
    (compare : A → Bool) where
  unfoldable pub lower_bound_loop : ℕ → I → ℕ → Option I
  lower_bound_loop zero begin len = none
  lower_bound_loop (suc fuel) begin len =
      let offset = len / 2 in
      let it = advance next offset begin in
      let right = lower_bound_loop fuel (next it) (len - (offset + 1)) in
      let left = lower_bound_loop fuel begin offset in
      let body = deref it >>= λ value. if compare value then right else left in
      if len == 0 then some begin else body

  unfoldable pub lower_bound : I → ℕ → Option I
  unfolding lower_bound_loop advance
  lower_bound begin len = lower_bound_loop (len + 1) begin len
