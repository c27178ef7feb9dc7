-- ===== src/Math/Powers.antt =====
-- The wrapping power loop.
use pinyon.Prelude.{
  ℕ, zero, suc, ◌+◌, ◌*◌, ◌/◌, ◌%◌, ◌^◌, ◌<◌, ◌≡◌, ap, sym, ◌∙◌, arith, two_pow-suc, two_pow-pos,
}
use native.Mathlib.Nat.{pow-zero, pow-suc, mod-eq_of_lt, mod-lt, div-add-mod, mul-add-mod_self_left}
use pinyon.Math.{pow_loop, pow}

mod-mul_left : (a b m : ℕ) → a % m * b % m ≡ a * b % m
mod-mul_left a b m =
    let split : a * b ≡ m * (a / m * b) + a % m * b =
      omega (arith, ap (λ (t : ℕ). t * b) (div-add-mod a m)) in
    sym (ap (λ (t : ℕ). t % m) split ∙ mul-add-mod_self_left m (a / m * b) (a % m * b))

pow_loop-pow :
    (w num n result : ℕ) → result < 2 ^ w → pow_loop w num (suc n) result ≡ result * num ^ n % 2 ^ w
unfolding pow_loop
pow_loop-pow w num zero result h = sym (
    ap (λ (t : ℕ). t % 2 ^ w) (omega (arith, ap (λ (t : ℕ). result * t) (pow-zero num)))
    ∙ mod-eq_of_lt h)
pow_loop-pow w num (suc n) result h =
    pow_loop-pow w num n (result * num % 2 ^ w) (mod-lt _ (two_pow-pos w))
    ∙ mod-mul_left (result * num) (num ^ n) (2 ^ w)
    ∙ ap (λ (t : ℕ). t % 2 ^ w) (omega (arith, ap (λ (t : ℕ). result * t) (pow-suc num n)))

-- `pow` is the power modulo the word, for every exponent.
pub pow-mod : (w num power : ℕ) → 0 < w → num < 2 ^ w → pow w num power ≡ num ^ power % 2 ^ w
unfolding pow
pow-mod zero num power h small = absurd (omega arith)
pow-mod (suc w) num zero h small = sym (
    ap (λ (t : ℕ). t % 2 ^ suc w) (pow-zero num)
    ∙ mod-eq_of_lt (omega (arith, two_pow-suc w, two_pow-pos w)))
pow-mod (suc w) num (suc n) h small =
    pow_loop-pow (suc w) num n num small
    ∙ ap (λ (t : ℕ). t % 2 ^ suc w) (omega (arith, pow-suc num n))
