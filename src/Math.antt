-- ===== src/Math.antt =====
-- pine/math.hpp: the integer helpers, at a word of w bits.
pub mod Powers
pub mod Quotients
use pinyon.Prelude.{ℕ, zero, suc, ◌+◌, ◌-◌, ◌*◌, ◌/◌, ◌%◌, ◌^◌, ltb, if◌then◌else◌}

-- `divisor` is what is divided. Division by zero is undefined; here it gives 0.
unfoldable pub divide_up : ℕ → ℕ → ℕ → ℕ
divide_up w divisor dividend = (divisor + (dividend + 2 ^ w - 1)) % 2 ^ w / dividend

-- `while (power > 1) { result *= num; --power; }`
pow_loop : ℕ → ℕ → ℕ → ℕ → ℕ
pow_loop w num zero result = result
pow_loop w num (suc zero) result = result
pow_loop w num (suc (suc power)) result = pow_loop w num (suc power) (result * num % 2 ^ w)

unfoldable pub pow : ℕ → ℕ → ℕ → ℕ
unfolding pow_loop
pow w num zero = 1
pow w num (suc power) = pow_loop w num (suc power) num

-- `while (num >= base) { num /= base; ++result; }`, on fuel.
log_loop : ℕ → ℕ → ℕ → ℕ → ℕ
log_loop base zero num result = result
log_loop base (suc fuel) num result =
    let rest = log_loop base fuel (num / base) (result + 1) in if ltb num base then result else rest

-- One round for each digit, and there are at most `num` digits.
unfoldable pub log : ℕ → ℕ → ℕ
unfolding log_loop
log base num = log_loop base (num + 1) num 0

unfoldable pub max : ℕ → ℕ → ℕ
max first second = if ltb second first then first else second

unfoldable pub min : ℕ → ℕ → ℕ
min first second = if ltb first second then first else second
