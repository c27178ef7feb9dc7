-- ===== src/Numbers.antt =====
-- `to_strbuf` of pine/c_string.hpp for 32-bit integers, in a buffer as a list of bytes. A write past the
-- list is left out.
pub mod Digits
pub mod Texts
mod Tests
use pinyon.Prelude.{
  ℕ, zero, suc, ◌+◌, ◌-◌, ◌*◌, ◌/◌, ◌^◌, ◌&&◌, ltb, ◌==◌, if◌then◌else◌, Option, none, some, List,
  set,
}
use pinyon.Math.{pow, log}
use pinyon.Files.{ℤ, pos, negsuc}

-- limits<Int>::characters10 of the unsigned and the signed integers
abbrev pub characters10 : ℕ
characters10 = 10

abbrev pub signed_characters10 : ℕ
signed_characters10 = 11

-- The loop over `pos`, of which at most `left` rounds are left; `start` is where `buf` points.
unfoldable pub put_decimal : (left start position len bufsize absnum : ℕ) → List ℕ → List ℕ
put_decimal zero start position len bufsize absnum buf = buf
put_decimal (suc left) start position len bufsize absnum buf =
    let divisor = pow 32 10 (len - position - 1) in
    let digit = absnum / divisor in
    let rest =
      put_decimal left start (position + 1) len bufsize (absnum - digit * divisor)
        (set buf (start + position) (48 + digit)) in
    if ltb position len && ltb position bufsize then rest else buf

-- What follows the sign.
unfoldable pub put_absnum : (start bufsize absnum : ℕ) → List ℕ → List ℕ
put_absnum start bufsize absnum buf =
    let len = log 10 absnum + 1 in
    set (put_decimal len start 0 len bufsize absnum buf) (start + len) 0

-- For an unsigned `Int`.
unfoldable pub to_strbuf : (buf : List ℕ) (bufsize num : ℕ) → List ℕ
to_strbuf buf bufsize num =
    if ltb bufsize (characters10 + 1) then buf else put_absnum 0 bufsize num buf

-- For a signed `Int`; `none` is the overflow of `abs` at the least integer.
unfoldable pub to_strbuf_signed : (buf : List ℕ) (bufsize : ℕ) → ℤ → Option (List ℕ)
to_strbuf_signed buf bufsize (pos n) =
    some (if ltb bufsize (signed_characters10 + 1) then buf else put_absnum 0 bufsize n buf)
to_strbuf_signed buf bufsize (negsuc n) =
    let negated : Option (List ℕ) =
      if n + 1 == 2 ^ 31 then none else some (put_absnum 1 (bufsize - 1) (n + 1) (set buf 0 45)) in
    if ltb bufsize (signed_characters10 + 1) then some buf else negated
