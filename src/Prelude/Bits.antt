-- ===== src/Prelude/Bits.antt =====
-- `value & mask` at variables: the laws of `bit_and` for the masks that the source builds.
use Prim.Native.Nat.{
  ℕ, zero, suc, ◌+◌, ◌-◌, ◌*◌, ◌/◌, ◌%◌, ◌^◌, ◌≤◌, ◌<◌, min, bit_and, digits, bit_and-bitwise,
}
use mathlib.Core.Path.{◌≡◌, refl, ap, sym, ◌∙◌}
use native.Mathlib.Omega.{arith}
use native.Mathlib.Nat.{pow-suc, div-div-eq-div-mul}

abbrev low_first : ℕ → ℕ → ℕ → ℕ
low_first = digits (λ _. zero) min

low_first_enough :
    (fuel more a mask : ℕ) → a ≤ fuel → a ≤ more → low_first fuel a mask ≡ low_first more a mask
low_first_enough zero zero a mask h k = refl
low_first_enough (suc fuel) zero zero mask h k = refl
low_first_enough (suc fuel) zero (suc a) mask h k = absurd (omega arith)
low_first_enough zero (suc more) zero mask h k = refl
low_first_enough zero (suc more) (suc a) mask h k = absurd (omega arith)
low_first_enough (suc fuel) (suc more) zero mask h k = refl
low_first_enough (suc fuel) (suc more) (suc a) mask h k =
    omega (arith, low_first_enough fuel more (suc a / 2) (mask / 2) (omega arith) (omega arith))

-- The lowest digit of a conjunction.
pub bit_and_halve :
    (a mask : ℕ) → bit_and a mask ≡ bit_and (a / 2) (mask / 2) * 2 + min (a % 2) (mask % 2)
bit_and_halve zero mask = omega (arith, bit_and-bitwise 0 mask, bit_and-bitwise 0 (mask / 2))
bit_and_halve (suc a) mask = omega (
  arith,
  bit_and-bitwise (suc a) mask,
  bit_and-bitwise (suc a / 2) (mask / 2),
  low_first_enough a (suc a / 2) (suc a / 2) (mask / 2) (omega arith) (omega arith),
)

pub zero-bit_and : (mask : ℕ) → bit_and 0 mask ≡ 0
zero-bit_and mask = bit_and-bitwise 0 mask

pub two_pow-suc : (k : ℕ) → 2 ^ suc k ≡ 2 * 2 ^ k
two_pow-suc k = omega (arith, pow-suc 2 k)

pub two_pow-pos : (k : ℕ) → 0 < 2 ^ k
two_pow-pos zero = omega arith
two_pow-pos (suc k) = omega (arith, two_pow-suc k, two_pow-pos k)

-- All ones: the mask `2 ^ w - 1` keeps every value of w bits.
pub bit_and_ones : (w a : ℕ) → a < 2 ^ w → bit_and a (2 ^ w - 1) ≡ a
bit_and_ones zero zero h = refl
bit_and_ones zero (suc a) h = absurd (omega arith)
bit_and_ones (suc w) a h =
    let half : (2 ^ suc w - 1) / 2 ≡ 2 ^ w - 1 = omega (arith, two_pow-suc w, two_pow-pos w) in
    omega (
      arith,
      two_pow-suc w,
      two_pow-pos w,
      bit_and_halve a (2 ^ suc w - 1),
      ap (bit_and (a / 2)) half,
      bit_and_ones w (a / 2) (omega (arith, two_pow-suc w)),
    )

-- `value & ~(2 ^ k - 1)` drops the low k bits.
pub bit_and_high : (k w a : ℕ) → k ≤ w → a < 2 ^ w → bit_and a (2 ^ w - 2 ^ k) ≡ a / 2 ^ k * 2 ^ k
bit_and_high zero w a h small = omega (arith, bit_and_ones w a small)
bit_and_high (suc k) zero a h small = absurd (omega arith)
bit_and_high (suc k) (suc w) a h small =
    let half : (2 ^ suc w - 2 ^ suc k) / 2 ≡ 2 ^ w - 2 ^ k =
      omega (arith, two_pow-suc w, two_pow-suc k) in
    let even : (2 ^ suc w - 2 ^ suc k) % 2 ≡ 0 = omega (arith, two_pow-suc w, two_pow-suc k) in
    let split : a / 2 ^ suc k ≡ a / 2 / 2 ^ k =
      ap (λ (t : ℕ). a / t) (two_pow-suc k) ∙ sym (div-div-eq-div-mul a 2 (2 ^ k)) in
    omega (
      arith,
      two_pow-suc k,
      even,
      bit_and_halve a (2 ^ suc w - 2 ^ suc k),
      ap (bit_and (a / 2)) half,
      bit_and_high k w (a / 2) (omega arith) (omega (arith, two_pow-suc w)),
      ap (λ (t : ℕ). t * 2 ^ suc k) split,
      ap (λ (t : ℕ). a / 2 / 2 ^ k * t) (two_pow-suc k),
    )
