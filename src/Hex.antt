-- ===== src/Hex.antt =====
-- `to_strbuf_hex` of pine/c_string.hpp for a 32-bit number, in a buffer as a list of bytes. A write past
-- the list is left out.
mod Tests
use pinyon.Prelude.{
  ℕ, zero, suc, ◌+◌, ◌-◌, ◌/◌, ◌%◌, Bool, true, false, ltb, ◌==◌, if◌then◌else◌, List, set,
}

-- limits<u32>::digits16
abbrev pub digits16 : ℕ
digits16 = 8

-- The char of a digit; `upper` is `ToAFlag::Upper`.
unfoldable pub hex_char : (upper : Bool) → ℕ → ℕ
hex_char upper hex_num =
    if ltb hex_num 10 then hex_num + 48 else hex_num - 10 + (if upper then 65 else 97)

-- `for (; pos < length; pos++) buf[pos] = '0';`, from the last place on
unfoldable pub fill_zeros : ℕ → List ℕ → List ℕ
fill_zeros zero buf = buf
fill_zeros (suc pos) buf = fill_zeros pos (set buf pos 48)

-- The loop over the digits, from the place before `pos` down.
unfoldable pub put_digits : Bool → (pos num : ℕ) → List ℕ → List ℕ
put_digits upper zero num buf = buf
put_digits upper (suc pos) num buf =
    let rest = put_digits upper pos (num / 16) (set buf pos (hex_char upper (num % 16))) in
    if num == 0 then buf else rest

unfoldable pub to_strbuf_hex : (buf : List ℕ) (bufsize num : ℕ) (upper : Bool) → List ℕ
to_strbuf_hex buf bufsize num upper =
    if ltb bufsize (digits16 + 1)
    then buf
    else put_digits upper digits16 num (set (fill_zeros digits16 buf) digits16 0)
