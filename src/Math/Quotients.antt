-- ===== src/Math/Quotients.antt =====
-- The rounded quotient, and the digit count by repeated division.
use pinyon.Prelude.{
  ℕ, zero, suc, ◌+◌, ◌-◌, ◌*◌, ◌/◌, ◌%◌, ◌^◌, ◌≤◌, ◌<◌, ◌≡◌, refl, ap, ◌∙◌, inl, inr, arith, true,
  ltb, Bool-cases, ltb→lt, ltb→le,
}
use native.Mathlib.Nat.{
  pow-zero, pow-suc, div-add-mod', mod-lt, add-mod_right, mod-eq_of_lt, le-div_iff_mul-le,
  div-lt_iff_lt-mul, div-lt_self,
}
use pinyon.Math.{divide_up, log_loop, log}

-- `divide_up` is the quotient rounded up: the least q with `divisor ≤ q * dividend`, as long as the
-- sum `divisor + dividend - 1` fits into the word.
pub divide_up_least :
    (w divisor dividend : ℕ)
    → 0 < dividend
    → divisor + dividend ≤ 2 ^ w
    → (divisor ≤ divide_up w divisor dividend * dividend)
      × (divide_up w divisor dividend * dividend < divisor + dividend)
unfolding divide_up
divide_up_least w n d pos fits =
    let sum : n + (d + 2 ^ w - 1) ≡ n + d - 1 + 2 ^ w = omega arith in
    let wrap : (n + (d + 2 ^ w - 1)) % 2 ^ w ≡ n + d - 1 =
      ap (λ (t : ℕ). t % 2 ^ w) sum
      ∙ add-mod_right (n + d - 1) (2 ^ w)
      ∙ mod-eq_of_lt (omega arith) in
    rw wrap (
      omega (arith, div-add-mod' (n + d - 1) d, mod-lt (n + d - 1) pos),
      omega (arith, div-add-mod' (n + d - 1) d),
    )

log_loop-add :
    (base fuel num result : ℕ) → log_loop base fuel num result ≡ result + log_loop base fuel num 0
unfolding log_loop
log_loop-add base zero num result = omega arith
log_loop-add base (suc fuel) num result =
    ground (
      arith,
      log_loop-add base fuel (num / base) (result + 1),
      log_loop-add base fuel (num / base) 1,
    )

digit_step :
    (base num d : ℕ)
    → 0 < base
    → (base ^ d ≤ num / base) × (num / base < base ^ suc d)
    → (base ^ suc d ≤ num) × (num < base ^ suc (suc d))
digit_step base num d pos (lo, hi) = (
  omega (arith, pow-suc base d, (le-div_iff_mul-le pos).0 lo),
  omega (arith, pow-suc base (suc d), (div-lt_iff_lt-mul pos).0 hi),
)

log_loop_bounds :
    (base fuel num : ℕ)
    → 1 < base
    → 0 < num
    → num ≤ fuel
    → (base ^ log_loop base fuel num 0 ≤ num) × (num < base ^ suc (log_loop base fuel num 0))
unfolding log_loop
log_loop_bounds base zero num b p h = absurd (omega arith)
log_loop_bounds base (suc fuel) num b p h = elim (Bool-cases (ltb num base)) [
  | inl small ↦ rw small (
    omega (arith, pow-zero base),
    omega (arith, pow-suc base 0, ap (λ (t : ℕ). t * base) (pow-zero base), ltb→lt num base small),
  )
  | inr big ↦
      let more : log_loop base fuel (num / base) (0 + 1) ≡ suc (log_loop base fuel (num / base) 0) =
        log_loop-add base fuel (num / base) (0 + 1) ∙ omega arith in
      rw (big, more)
        (digit_step base num (log_loop base fuel (num / base) 0) (omega arith) (
          log_loop_bounds base fuel (num / base) b
            ((le-div_iff_mul-le (omega arith)).1 (omega (arith, ltb→le num base big)))
            (omega (arith, div-lt_self {n = num} {k = base} p b))))
]

-- For a base above one and a positive number, `log` is the exponent of the highest power of the
-- base that does not exceed the number; the loop ends within `num + 1` rounds.
pub log_bounds :
    (base num : ℕ)
    → 1 < base
    → 0 < num
    → (base ^ log base num ≤ num) × (num < base ^ suc (log base num))
unfolding log
log_bounds base num b p = log_loop_bounds base (num + 1) num b p (omega arith)

pub log_zero : (base : ℕ) → 0 < base → log base 0 ≡ 0
unfolding log log_loop
log_zero base h = let small : ltb 0 base ≡ true = ground arith in rw small refl
