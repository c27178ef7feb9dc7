-- ===== src/TwoMath/Width.antt =====
-- The width of a number in bits, and the powers of two around it.
use pinyon.Prelude.{
  ℕ, zero, suc, ◌+◌, ◌-◌, ◌*◌, ◌/◌, ◌%◌, ◌^◌, ◌≤◌, ◌<◌, ◌≡◌, refl, inl, inr, arith, two_pow-suc,
  two_pow-pos, ◌==◌, if◌then◌else◌, Bool-cases, ==_iff, ap, ◌∙◌,
}
use native.Mathlib.Nat.{mod-eq_of_lt, pow-le-pow_right}
use pinyon.TwoMath.{bit_width_loop, bit_width, align_down_to_power, align_up_to_power}

bit_width_loop-zero : (fuel width count : ℕ) → bit_width_loop fuel 0 width count ≡ width
unfolding bit_width_loop
bit_width_loop-zero zero width count = refl
bit_width_loop-zero (suc fuel) width count = refl

-- The loop finds the place `count + d` of the highest bit.
bit_width_loop_highest :
    (fuel value width count : ℕ)
    → value ≤ fuel
    → 0 < value
    → (d : ℕ) × (bit_width_loop fuel value width count ≡ count + d)
      × (2 ^ d ≤ value)
      × (value < 2 ^ suc d)
unfolding bit_width_loop
bit_width_loop_highest zero value width count h pos = absurd (omega arith)
bit_width_loop_highest (suc fuel) value width count h pos = elim (Bool-cases (value == 1)) [
  | inl one ↦
      let e : value ≡ 1 = (==_iff value 1).0 one in
      rw e
        (0, rw (bit_width_loop-zero fuel count (count + 1)) (omega arith), omega arith, omega arith)
  | inr more ↦
      let big : 1 < value = ground arith in
      let (d, found, lo, hi) =
        bit_width_loop_highest fuel (value / 2) (if value % 2 == 1 then count else width)
          (count + 1) (omega arith) (omega arith) in
      (
        suc d,
        ground (arith, found),
        omega (arith, two_pow-suc d),
        omega (arith, two_pow-suc d, two_pow-suc (suc d)),
      )
]

-- `bit_width` of a number above zero is the place of its highest bit, counted from one.
pub bit_width_highest :
    (value : ℕ)
    → 0 < value
    → (d : ℕ) × (bit_width value ≡ suc d) × (2 ^ d ≤ value) × (value < 2 ^ suc d)
unfolding bit_width
bit_width_highest value pos =
    let (d, found, lo, hi) = bit_width_loop_highest (value + 1) value 0 1 (omega arith) pos in
    (d, omega (arith, found), lo, hi)

-- Two powers of two around one number are the same.
pub highest_unique : (v d e : ℕ) → 2 ^ d ≤ v → v < 2 ^ suc d → 2 ^ e ≤ v → v < 2 ^ suc e → d ≡ e
highest_unique v d e a b c f = ground (
  arith,
  λ (h : suc d ≤ e). pow-le-pow_right {n = 2} (omega arith) h,
  λ (h : suc e ≤ d). pow-le-pow_right {n = 2} (omega arith) h,
)

pub bit_width-two_pow : (d : ℕ) → bit_width (2 ^ d) ≡ suc d
bit_width-two_pow d =
    let (e, found, lo, hi) = bit_width_highest (2 ^ d) (two_pow-pos d) in
    found
    ∙ ap suc (
        highest_unique (2 ^ d) e d lo hi (omega arith)
          (omega (arith, two_pow-suc d, two_pow-pos d)))

align_down_to_power_highest :
    (value d : ℕ)
    → value < 2 ^ 32
    → 2 ^ d ≤ value
    → value < 2 ^ suc d
    → align_down_to_power value ≡ 2 ^ d
unfolding align_down_to_power
align_down_to_power_highest value d small lo hi =
    let (e, found, lo', hi') = bit_width_highest value (omega (arith, two_pow-pos d)) in
    let same : bit_width value - 1 ≡ d =
      omega (arith, found, highest_unique value d e lo hi lo' hi') in
    ground (
      arith,
      two_pow-pos d,
      ap (λ (t : ℕ). 2 ^ t % 2 ^ 32) same,
      mod-eq_of_lt {n = 2 ^ d} {m = 2 ^ 32} (omega arith),
    )

-- Up to half the range of a word of at most 32 bits, `align_up_to_power` of a number above zero is
-- a power of two, not below the number and less than twice as large.
pub align_up_to_power_least :
    (w value : ℕ)
    → w < 32
    → 0 < value
    → value ≤ 2 ^ w
    → (d : ℕ) × (align_up_to_power (suc w) value ≡ 2 ^ d) × (value ≤ 2 ^ d) × (2 ^ d < 2 * value)
unfolding align_up_to_power
align_up_to_power_least w value narrow pos half =
    let (d, _, lo, hi) = bit_width_highest value pos in
    let word : 2 ^ suc w ≤ 2 ^ 32 = pow-le-pow_right {n = 2} (omega arith) narrow in
    let down =
      align_down_to_power_highest value d (omega (arith, two_pow-suc w, two_pow-pos w)) lo hi in
    elim (Bool-cases (2 ^ d == value)) [
      | inl exact ↦ (d, ground (arith, down), ground arith, ground arith)
      | inr below ↦
          let less : 2 ^ d < value = ground arith in
          (
            suc d,
            ground (
              arith,
              down,
              two_pow-suc d,
              mod-eq_of_lt {n = 2 ^ d * 2} {m = 2 ^ suc w} (omega (arith, two_pow-suc w)),
            ),
            omega arith,
            omega (arith, two_pow-suc d),
          )
    ]
