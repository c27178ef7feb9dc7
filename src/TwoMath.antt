-- ===== src/TwoMath.antt =====
-- pine/twomath.hpp: alignment to powers of two, at a word of w bits. A mask `~(alignment - 1)` is
-- `2 ^ w - alignment`, and a sum wraps.
pub mod Align
pub mod Width
use Prim.Native.Nat.{bit_and}
use pinyon.Prelude.{
  ℕ, zero, suc, ◌+◌, ◌-◌, ◌*◌, ◌/◌, ◌%◌, ◌^◌, Bool, true, ◌||◌, ◌==◌, if◌then◌else◌,
}

unfoldable pub align_down_two : ℕ → ℕ → ℕ → ℕ
align_down_two w value alignment =
    if value == 0 || alignment == 0 then 0 else bit_and value (2 ^ w - alignment)

unfoldable pub align_up_two : ℕ → ℕ → ℕ → ℕ
align_up_two w value alignment =
    if value == 0
    then alignment
    else if alignment == 0
    then value
    else bit_and ((value + (alignment - 1)) % 2 ^ w) (2 ^ w - alignment)

unfoldable pub alignment_up_two : ℕ → ℕ → ℕ → ℕ
unfolding align_up_two
alignment_up_two w value alignment =
    if alignment == 0 then 0 else (align_up_two w value alignment + 2 ^ w - value) % 2 ^ w

unfoldable pub is_aligned_two : ℕ → ℕ → ℕ → Bool
unfolding alignment_up_two
is_aligned_two w value alignment = value == 0 || alignment_up_two w value alignment == 0

unfoldable pub is_aligned_two_power : ℕ → ℕ → Bool
is_aligned_two_power w value = bit_and value ((value + 2 ^ w - 1) % 2 ^ w) == 0

-- `while (value != 0) { if (value & 1) width = count; ++count; value >>= 1; }`, on fuel.
unfoldable pub bit_width_loop : ℕ → (value width count : ℕ) → ℕ
bit_width_loop zero value width count = width
bit_width_loop (suc fuel) value width count =
    let rest =
      bit_width_loop fuel (value / 2) (if value % 2 == 1 then count else width) (count + 1) in
    if value == 0 then width else rest

-- One round for each bit, and there are at most `value` bits.
unfoldable pub bit_width : ℕ → ℕ
unfolding bit_width_loop
bit_width value = bit_width_loop (value + 1) value 0 1

-- `1u << n` is a 32-bit value, at a count below 32.
unfoldable pub align_down_to_power : ℕ → ℕ
unfolding bit_width
align_down_to_power value = if value == 0 then 0 else 2 ^ (bit_width value - 1) % 2 ^ 32

unfoldable pub align_up_to_power : ℕ → ℕ → ℕ
unfolding align_down_to_power
align_up_to_power w value =
    let aligned_down = align_down_to_power value in
    if value == 0 then 1 else if aligned_down == value then value else aligned_down * 2 % 2 ^ w
