-- ===== src/Algorithm/Distance.antt =====
-- `distance` over linked lists never counts.
use pinyon.Prelude.{
  ℕ, zero, suc, ◌+◌, ◌<◌, ◌≡◌, refl, inl, inr, arith, false, ltb, ◌==◌, Bool-cases, some, List, [],
  ◌∷◌, length,
}
use pinyon.Algorithm.{ptr_begin, ptr_end, ptr_next, ptr_eq, distance_loop, distance}

module _ {A : Type 0} (xs : List A) where
  -- From any place of the list the walk reaches the end, and the count stays what it was.
  distance_loop-same :
      (fuel pos dist : ℕ)
      → pos < length xs
      → length xs < fuel + pos
      → distance_loop fuel xs (record { pos = pos; at_end = false }) (ptr_end xs) dist ≡ some dist
  unfolding distance_loop ptr_eq ptr_next ptr_end
  distance_loop-same zero pos dist h f = absurd (omega arith)
  distance_loop-same (suc zero) pos dist h f = absurd (omega arith)
  distance_loop-same (suc (suc fuel)) pos dist h f = elim (Bool-cases (ltb (pos + 1) (length xs))) [
    | inl more ↦
        rw more (
          ground (arith, distance_loop-same (suc fuel) (pos + 1) dist (ground arith) (omega arith)))
    | inr last ↦ rw last (ground arith)
  ]

-- `distance(begin(), end())` of a linked list ends and is 0, whatever the list's length.
pub distance-list : {A : Type 0} (xs : List A) → distance xs (ptr_begin xs) (ptr_end xs) ≡ some 0
unfolding distance distance_loop ptr_begin ptr_end ptr_eq
distance-list [] = refl
distance-list (x ∷ xs) =
    let full : (suc (length xs) == 0) ≡ false = ground arith in
    rw full (distance_loop-same (x ∷ xs) (suc (length xs) + 1) 0 0 (omega arith) (omega arith))
