-- ===== src/Algorithm/Search.antt =====
-- What `find_if` and `lower_bound` find.
use pinyon.Prelude.{
  ℕ, zero, suc, ◌+◌, ◌-◌, ◌/◌, ◌≤◌, ◌<◌, ◌≡◌, inl, inr, ap, arith, Bool, true, false, ltb, ◌==◌,
  Bool-cases, none, some, List, [], ◌∷◌, length, get_elem?, get_elem?-total, All, In,
}
use pinyon.Algorithm.{find_if, advance, lower_bound_loop, lower_bound}

-- What is found is in the list and passes; nothing is found only if nothing passes.
pub find_if_sound :
    {A : Type 0} (pred : A → Bool) (xs : List A) (a : A)
    → find_if pred xs ≡ some a
    → In a xs × (pred a ≡ true)
unfolding find_if
find_if_sound pred [] a e = cc
find_if_sound pred (x ∷ xs) a e = ground (arith, find_if_sound pred xs a)

pub find_if_complete :
    {A : Type 0} (pred : A → Bool) (xs : List A)
    → find_if pred xs ≡ none
    → All (λ a. pred a ≡ false) xs
unfolding find_if
find_if_complete pred [] e = tt
find_if_complete pred (x ∷ xs) e = ground (arith, find_if_complete pred xs)

advance-suc : (steps pos : ℕ) → advance suc steps pos ≡ pos + steps
unfolding advance
advance-suc zero pos = omega arith
advance-suc (suc steps) pos = omega (arith, advance-suc steps (suc pos))

module _ {A : Type 0} (xs : List A) (compare : A → Bool) (m : ℕ)
    (parted : (i : ℕ) (a : A) → get_elem? xs i ≡ some a → compare a ≡ ltb i m) where
  lower_bound_loop-parted :
      (fuel begin len : ℕ)
      → len < fuel
      → begin ≤ m
      → m ≤ begin + len
      → begin + len ≤ length xs
      → lower_bound_loop (get_elem? xs) suc compare fuel begin len ≡ some m
  unfolding lower_bound_loop
  lower_bound_loop-parted zero begin len f lo hi room = absurd (omega arith)
  lower_bound_loop-parted (suc fuel) begin len f lo hi room = elim (Bool-cases (len == 0)) [
    | inl done ↦ rw done (ap some (ground arith))
    | inr more ↦
        let pos : 0 < len = ground arith in
        let (a, found) = get_elem?-total xs (begin + len / 2) (omega arith) in
        rw (more, advance-suc (len / 2) begin, found, parted (begin + len / 2) a found)
          (elim (Bool-cases (ltb (begin + len / 2) m)) [
            | inl right ↦ rw right (
                lower_bound_loop-parted fuel (suc (begin + len / 2)) (len - (len / 2 + 1))
                  (omega arith) (ground arith) (omega arith) (omega arith))
            | inr left ↦ rw left (
                lower_bound_loop-parted fuel begin (len / 2) (omega arith) lo (ground arith)
                  (omega arith))
          ])
  ]

  -- On a random-access range that `compare` parts at m, `lower_bound` ends and returns m.
  pub lower_bound-parted :
      m ≤ length xs → lower_bound (get_elem? xs) suc compare 0 (length xs) ≡ some m
  unfolding lower_bound
  lower_bound-parted h =
      lower_bound_loop-parted (length xs + 1) 0 (length xs) (omega arith) (omega arith)
        (omega arith) (omega arith)
