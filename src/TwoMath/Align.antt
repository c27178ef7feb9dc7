-- ===== src/TwoMath/Align.antt =====
-- Alignment by masks.
use pinyon.Prelude.{
  ℕ, ◌+◌, ◌-◌, ◌*◌, ◌/◌, ◌%◌, ◌^◌, ◌≤◌, ◌<◌, ◌≡◌, refl, ap, ◌↔◌, inl, inr, arith, two_pow-pos,
  bit_and_high, ◌==◌, true, Bool-cases, ==_iff,
}
use native.Mathlib.Nat.{div-add-mod', mod-lt, mod-eq_of_lt, mul-mod_left, add-mod_right, zero-mod}
use pinyon.TwoMath.{align_down_two, align_up_two, alignment_up_two, is_aligned_two}

eq_of_multiples : (m r v : ℕ) → r % m ≡ 0 → v % m ≡ 0 → v ≤ r → r < v + m → r ≡ v
eq_of_multiples m r v hr hv lo hi = grind (arith, div-add-mod' r m, div-add-mod' v m)

module _ (w k value : ℕ) (fits : k ≤ w) where
  align_down_two-mask : value < 2 ^ w → align_down_two w value (2 ^ k) ≡ value / 2 ^ k * 2 ^ k
  unfolding align_down_two
  align_down_two-mask small = ground (arith, bit_and_high k w value fits small, two_pow-pos k)

  -- For a value of the word and an alignment `2 ^ k` in it, `align_down_two` gives a multiple of the
  -- alignment, not above the value and less than one alignment below it.
  pub align_down_two_floor :
      value < 2 ^ w
      → (align_down_two w value (2 ^ k) % 2 ^ k ≡ 0)
        × (align_down_two w value (2 ^ k) ≤ value)
        × (value < align_down_two w value (2 ^ k) + 2 ^ k)
  align_down_two_floor small = rw (align_down_two-mask small) (
    mul-mod_left (value / 2 ^ k) (2 ^ k),
    omega (arith, div-add-mod' value (2 ^ k)),
    omega (arith, div-add-mod' value (2 ^ k), mod-lt value (two_pow-pos k)),
  )

  pub align_up_two-mask :
      0 < value
      → value + (2 ^ k - 1) < 2 ^ w
      → align_up_two w value (2 ^ k) ≡ (value + (2 ^ k - 1)) / 2 ^ k * 2 ^ k
  unfolding align_up_two
  align_up_two-mask pos small =
      ground (
        arith,
        mod-eq_of_lt small,
        bit_and_high k w (value + (2 ^ k - 1)) fits small,
        two_pow-pos k,
      )

  -- For a value above zero, where the rounding does not leave the word, `align_up_two` gives a
  -- multiple of the alignment, not below the value and less than one alignment above it.
  pub align_up_two_ceil :
      0 < value
      → value + (2 ^ k - 1) < 2 ^ w
      → (align_up_two w value (2 ^ k) % 2 ^ k ≡ 0)
        × (value ≤ align_up_two w value (2 ^ k))
        × (align_up_two w value (2 ^ k) < value + 2 ^ k)
  align_up_two_ceil pos small = rw (align_up_two-mask pos small) (
    mul-mod_left ((value + (2 ^ k - 1)) / 2 ^ k) (2 ^ k),
    omega (
      arith,
      div-add-mod' (value + (2 ^ k - 1)) (2 ^ k),
      mod-lt (value + (2 ^ k - 1)) (two_pow-pos k),
    ),
    omega (arith, div-add-mod' (value + (2 ^ k - 1)) (2 ^ k), two_pow-pos k),
  )

  -- What must be added.
  gap_lem :
      0 < value
      → value + (2 ^ k - 1) < 2 ^ w
      → alignment_up_two w value (2 ^ k) ≡ align_up_two w value (2 ^ k) - value
  unfolding alignment_up_two
  gap_lem pos small =
      let (multiple, above, near) = align_up_two_ceil pos small in
      let sum : align_up_two w value (2 ^ k) + 2 ^ w - value
          ≡ align_up_two w value (2 ^ k) - value + 2 ^ w =
        omega arith in
      ground (
        arith,
        two_pow-pos k,
        ap (λ (t : ℕ). t % 2 ^ w) sum,
        add-mod_right (align_up_two w value (2 ^ k) - value) (2 ^ w),
        mod-eq_of_lt {n = align_up_two w value (2 ^ k) - value} {m = 2 ^ w} (omega arith),
      )

  -- Within the word, `is_aligned_two` holds of the multiples of the alignment and of nothing else.
  pub is_aligned_two_iff :
      value + (2 ^ k - 1) < 2 ^ w → (is_aligned_two w value (2 ^ k) ≡ true) ↔ (value % 2 ^ k ≡ 0)
  unfolding is_aligned_two
  is_aligned_two_iff small = elim (Bool-cases (value == 0)) [
    | inl nil ↦
        rw nil
          (λ _. let e : value ≡ 0 = (==_iff value 0).0 nil in rw e (zero-mod (2 ^ k)), λ _. refl)
    | inr more ↦
        let pos : 0 < value = ground arith in
        let (multiple, above, near) = align_up_two_ceil pos small in
        let gap = gap_lem pos small in
        rw more (
          λ h.
              let e : align_up_two w value (2 ^ k) ≡ value = ground (arith, h, gap) in
              rw e at multiple,
          λ h. ground (
            arith,
            gap,
            eq_of_multiples (2 ^ k) (align_up_two w value (2 ^ k)) value multiple h above near,
          ),
        )
  ]
