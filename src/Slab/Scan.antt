-- ===== src/Slab/Scan.antt =====
-- The search for a free bit in a bitmap of which one word can be read.
use pinyon.Prelude.{
  ℕ, zero, suc, ◌+◌, ◌-◌, ◌*◌, ◌/◌, ◌^◌, ◌≤◌, ◌<◌, ◌≡◌, refl, sym, ap, ◌∙◌, ◌⊎◌, inl, inr, arith,
  true, false, ◌&&◌, ltb, ◌==◌, if◌then◌else◌, Bool-cases, ==_iff, Option, none, some, List, ◌∷◌,
}
use pinyon.BitMap.{has, bit, shifted, word_at, set_bit, clear_bit}
use pinyon.Slab.{bits_per_bitmap, find_bit, find_in_bitmaps}

-- The operations of BitMap on the bits of the first word.
module _ (num_bits index w : ℕ) (ws : List ℕ) (inside : index < num_bits) (low : index < 32) where
  quotient : index / num_bits ≡ 0
  quotient = grind arith

  pub bit-first : bit num_bits index (w ∷ ws) ≡ some (has w index)
  unfolding bit word_at shifted
  bit-first = rw quotient (ground arith)

  pub set_bit-first :
      set_bit num_bits index (w ∷ ws)
      ≡ some ((if has w index then w - 2 ^ index else w + 2 ^ index) ∷ ws)
  unfolding set_bit word_at shifted
  set_bit-first = rw quotient (ground arith)

  pub clear_bit-first :
      clear_bit num_bits index (w ∷ ws) ≡ some ((if has w index then w - 2 ^ index else w) ∷ ws)
  unfolding clear_bit word_at shifted
  clear_bit-first = rw quotient (ground arith)

pub bit-behind : (num_bits : ℕ) (bitmap : List ℕ) → bit num_bits 32 bitmap ≡ none
unfolding bit word_at shifted
bit-behind num_bits bitmap = ground arith

module _ (value_size slabs w : ℕ) (ws : List ℕ) (wide : 32 < bits_per_bitmap value_size)
    (enough : 32 < slabs) where
  abbrev n : ℕ
  n = bits_per_bitmap value_size

  find_bit-free :
      (fuel i : ℕ)
      → i < 32
      → has w i ≡ false
      → find_bit value_size (suc fuel) slabs 0 i (w ∷ ws) ≡ some (some i)
  unfolding find_bit
  find_bit-free fuel i low free =
      let t : (ltb i n && ltb (0 * n + i) slabs) ≡ true = ground arith in
      rw (t, bit-first n i w ws (omega arith) low, free) refl

  find_bit-taken :
      (fuel i : ℕ)
      → i < 32
      → has w i ≡ true
      → find_bit value_size (suc fuel) slabs 0 i (w ∷ ws)
        ≡ find_bit value_size fuel slabs 0 (i + 1) (w ∷ ws)
  unfolding find_bit
  find_bit-taken fuel i low taken =
      let t : (ltb i n && ltb (0 * n + i) slabs) ≡ true = ground arith in
      rw (t, bit-first n i w ws (omega arith) low, taken) refl

  find_bit-end : (fuel : ℕ) → find_bit value_size (suc fuel) slabs 0 32 (w ∷ ws) ≡ none
  unfolding find_bit
  find_bit-end fuel =
      let t : (ltb 32 n && ltb (0 * n + 32) slabs) ≡ true = ground arith in
      rw (t, bit-behind n (w ∷ ws)) refl

  -- The bits before `j` are taken.
  abbrev pub IsTaken : (from below : ℕ) → Type 0
  IsTaken from below = (k : ℕ) → from ≤ k → k < below → has w k ≡ true

  -- The search gives the first free bit of the word, and is undefined if there is none.
  pub find_bit-first :
      (fuel i : ℕ)
      → i ≤ 32
      → 32 < i + fuel
      → ((find_bit value_size fuel slabs 0 i (w ∷ ws) ≡ none) × IsTaken i 32)
        ⊎ ((j : ℕ) × (find_bit value_size fuel slabs 0 i (w ∷ ws) ≡ some (some j))
            × (i ≤ j)
            × (j < 32)
            × (has w j ≡ false)
            × IsTaken i j)
  find_bit-first zero i le lt = absurd (omega arith)
  find_bit-first (suc fuel) i le lt = elim (Bool-cases (i == 32)) [
    | inl end ↦
        let e : 32 ≡ i = ground (arith, end) in
        inl (
          ap (λ k. find_bit value_size (suc fuel) slabs 0 k (w ∷ ws)) (sym e) ∙ find_bit-end fuel,
          λ k a b. absurd (omega arith),
        )
    | inr more ↦
        let low : i < 32 = ground (arith, more) in
        elim (Bool-cases (has w i)) [
          | inr free ↦ inr (
            i,
            find_bit-free fuel i low free,
            omega arith,
            low,
            free,
            λ k a b. absurd (omega arith),
          )
          | inl taken ↦ elim (find_bit-first fuel (i + 1) (omega arith) (omega arith)) [
            | inl (run, all) ↦ inl (find_bit-taken fuel i low taken ∙ run, further i 32 taken all)
            | inr (j, run, above, below, free, all) ↦ inr (
              j,
              find_bit-taken fuel i low taken ∙ run,
              omega arith,
              below,
              free,
              further i j taken all,
            )
          ]
        ]
  ]
    where
      further : (i j : ℕ) → has w i ≡ true → IsTaken (i + 1) j → IsTaken i j
      further i j taken all k a b = elim (Bool-cases (k == i)) [
        | inl same ↦ ap (has w) ((==_iff k i).0 same) ∙ taken
        | inr other ↦ all k (ground (arith, other)) b
      ]

  -- So does the search over the bitmaps, which does not come to the second.
  pub find_in_bitmaps-first :
      (rest : List (List ℕ)) (found : Option ℕ)
      → find_bit value_size (n + 1) slabs 0 0 (w ∷ ws) ≡ some found
      → (j : ℕ) → found ≡ some j
      → find_in_bitmaps value_size slabs 0 ((w ∷ ws) ∷ rest) ≡ some (some (0, j))
  unfolding find_in_bitmaps
  find_in_bitmaps-first rest found run j e = ground (arith, run, e)

  pub find_in_bitmaps-undefined :
      (rest : List (List ℕ))
      → find_bit value_size (n + 1) slabs 0 0 (w ∷ ws) ≡ none
      → find_in_bitmaps value_size slabs 0 ((w ∷ ws) ∷ rest) ≡ none
  unfolding find_in_bitmaps
  find_in_bitmaps-undefined rest run = rw run refl
