-- ===== src/Vector.antt =====
-- The growth of pine/vector.hpp. The items are a list, and `capacity` is `m_capacity`; `value_size` is
-- sizeof(Value), and `allocate` is the allocator's call, which gives the size of what it allocated.
-- Whether the items that are moved keep their place in memory is not shown.
mod Tests
use pinyon.Prelude.{
  ℕ, ◌+◌, ◌*◌, ◌%◌, ◌^◌, Bool, true, false, ltb, leb, ◌==◌, if◌then◌else◌, Option, none, some, List,
  [], ◌∷◌, ◌++◌, length,
}
use pinyon.Math.{max}
use pinyon.TwoMath.{align_up_two, align_up_to_power}

abbrev page_size : ℕ
page_size = 4096

pub record Vector (A : Type 0) : Type 0 where
  pub contents : List A
  pub capacity : ℕ

unfoldable align_capacity : ℕ → ℕ
align_capacity new_capacity =
    if ltb page_size new_capacity
    then align_up_two 32 new_capacity page_size
    else max (align_up_to_power 32 new_capacity) 8

module _ {A : Type 0} (value_size : ℕ) (allocate : ℕ → Option ℕ) where
  -- The capacity becomes what the allocator returned, which is a number of bytes.
  unfoldable resize : ℕ → Vector A → Bool × Vector A
  resize amount v = elim (allocate (align_capacity amount * value_size % 2 ^ 32)) [
    | none ↦ (false, v)
    | some new_size ↦ (true, record v { capacity = new_size })
  ]

  unfoldable ensure : ℕ → Vector A → Bool × Vector A
  ensure amount v = if leb amount v.capacity then (true, v) else resize amount v

  unfoldable append : A → Vector A → Bool × Vector A
  append value v =
      let (enough, v') = ensure (length v.contents + 1) v in
      if enough then (true, record v' { contents = v'.contents ++ (value ∷ []) }) else (false, v')
