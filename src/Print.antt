-- ===== src/Print.antt =====
-- The formatted text of pine/print.hpp and pine/print.cpp, on a machine with 32-bit `int`, `long` and
-- `size_t`. A pointer to chars is the bytes from it on; a view is its chars. `none` is a read or a write
-- past the end of a list, an argument of another kind than the format asks for or a missing one, and
-- the overflow of `abs`.
pub mod Adds
pub mod Rounds
pub mod Directives
pub mod Prefix
mod Tests
use pinyon.Prelude.{
  ℕ, zero, suc, ◌+◌, ◌-◌, ◌%◌, ◌^◌, Bool, true, false, ◌||◌, leb, ltb, ◌==◌, if◌then◌else◌, Option,
  none, some, ◌>>=◌, List, [], ◌∷◌, ◌++◌, length, get_elem?, replicate,
}
use pinyon.Files.{ℤ, pos, negsuc}
use pinyon.Strings.{strlen, strbufcopy}
use pinyon.Numbers.{to_strbuf, to_strbuf_signed}
use pinyon.Hex.{to_strbuf_hex}

abbrev pub take : ℕ → List ℕ → List ℕ
take zero xs = []
take (suc n) [] = []
take (suc n) (x ∷ xs) = x ∷ take n xs

abbrev pub drop : ℕ → List ℕ → List ℕ
drop zero xs = xs
drop (suc n) [] = []
drop (suc n) (x ∷ xs) = drop n xs

-- StringView::operator[], a NUL from the end on.
unfoldable pub char_at : List ℕ → ℕ → ℕ
char_at [] position = 0
char_at (c ∷ view) zero = c
char_at (c ∷ view) (suc position) = char_at view position

-- What a `va_list` gives.
pub data Arg : Type 0 where
  word : ℕ → Arg
  chars : List ℕ → Arg

-- A word as `int`, `long` or `ssize_t`.
unfoldable pub int_of : ℕ → ℤ
int_of n = if ltb n (2 ^ 31) then pos n else negsuc (2 ^ 32 - 1 - n)

-- `0x` and the digits, in a buffer of 11 bytes.
unfoldable pub prefixed_hex : ℕ → List ℕ
prefixed_hex n = 48 ∷ 120 ∷ to_strbuf_hex (replicate 9 0) 9 n false

-- `print_with` of a number and of a pointer, as the text that they print.
unfoldable pub print_unsigned : ℕ → List ℕ
print_unsigned n = to_strbuf (replicate 11 0) 11 n

unfoldable pub print_signed : ℤ → Option (List ℕ)
print_signed n = to_strbuf_signed (replicate 12 0) 12 n

unfoldable pub print_pointer : ℕ → List ℕ
print_pointer ptr = 48 ∷ 120 ∷ to_strbuf_hex (replicate 9 0) 11 ptr false

-- The conversion that a type char and the flag `#` ask for, where it takes a word.
unfoldable pub convert_word : (alternative : Bool) (type_ch : ℕ) → ℕ → Option (Option (List ℕ))
convert_word alternative type_ch n =
    let signed : Option (Option (List ℕ)) =
      to_strbuf_signed (replicate 12 0) 12 (int_of n) >>= λ text. some (some text) in
    if type_ch == 99
    then some (some (n % 256 ∷ 0 ∷ []))
    else if type_ch == 117
    then some (some (to_strbuf (replicate 11 0) 11 n))
    else if type_ch == 100
    then signed
    else if type_ch == 120
    then some
        (some (if alternative then prefixed_hex n else to_strbuf_hex (replicate 11 0) 11 n false))
    else if type_ch == 112
    then some (some (prefixed_hex n))
    else some none

-- Whether the type char is one of `c`, `u`, `d`, `x` and `p`.
unfoldable pub takes_word : ℕ → Bool
takes_word type_ch =
    type_ch == 99 || type_ch == 117 || type_ch == 100 || type_ch == 120 || type_ch == 112

-- The switch on the type char: the text to add and the arguments left, or none to bail.
unfoldable pub convert :
    (alternative : Bool) (type_ch : ℕ) → List Arg → Option (Option (List ℕ × List Arg))
convert alternative type_ch [] =
    if type_ch == 37
    then some (some (37 ∷ 0 ∷ [], []))
    else if type_ch == 115 || takes_word type_ch
    then none
    else some none
convert alternative type_ch (chars text ∷ args) =
    if type_ch == 37
    then some (some (37 ∷ 0 ∷ [], chars text ∷ args))
    else if type_ch == 115
    then some (some (text, args))
    else if takes_word type_ch
    then none
    else some none
convert alternative type_ch (word n ∷ args) =
    let converted : Option (Option (List ℕ × List Arg)) =
      convert_word alternative type_ch n >>= λ text.
      some (elim text [ none ↦ none | some t ↦ some (t, args) ]) in
    if type_ch == 37
    then some (some (37 ∷ 0 ∷ [], word n ∷ args))
    else if type_ch == 115
    then none
    else converted

-- Whether `#` follows the `%` at a position, and where the type char stands, behind `#` and one of `l`
-- and `z`.
unfoldable pub is_alternative : List ℕ → ℕ → Bool
is_alternative view position = char_at view (position + 1) == 35

unfoldable pub mod_position : List ℕ → ℕ → ℕ
mod_position view position = if is_alternative view position then position + 2 else position + 1

unfoldable pub type_position : List ℕ → ℕ → ℕ
type_position view position =
    let p = mod_position view position in
    if char_at view p == 108 || char_at view p == 122 then p + 1 else p

module _ {T : Type 0} (try_add_string : List ℕ → T → Option (Bool × T)) where
  -- The loop over the format, on fuel: what is returned, and the state of `try_add_string`.
  unfoldable pub format_loop :
      (fuel : ℕ) (view : List ℕ) (position : ℕ) (rest : List Arg) → T → Option (Bool × T)
  format_loop zero view position rest t = none
  format_loop (suc fuel) view position rest t =
      let ch = char_at view position in
      let literal : Option (Bool × T) = try_add_string (ch ∷ 0 ∷ []) t >>= λ (added, t').
      format_loop fuel view (position + 1) rest t' in
      let q = type_position view position in
      let specifier : Option (Bool × T) =
        convert (is_alternative view position) (char_at view q) rest >>= λ r. elim r [
          | none ↦ some (false, t)
          | some (text, rest') ↦ try_add_string text t >>= λ (added, t'). elim added [
            | false ↦ some (false, t')
            | true ↦ format_loop fuel view (q + 1) rest' t'
          ]
        ] in
      if leb (length view) position then some (true, t) else if ch == 37 then specifier else literal

  -- A round takes at least one char of the format.
  unfoldable pub vfnprintf : (fmt : List ℕ) (rest : List Arg) → T → Option (Bool × T)
  vfnprintf fmt rest t = strlen fmt >>= λ n. format_loop (n + 1) (take n fmt) 0 rest t

-- What `try_add_wrapper` captures: `buf_pos` and `buf`.
unfoldable pub try_add_wrapper :
    (bufsize : ℕ) (message : List ℕ) → ℕ × List ℕ → Option (Bool × (ℕ × List ℕ))
try_add_wrapper bufsize message (buf_pos, buf) = do
  message_size ← strlen message
  (copied, tail) ← strbufcopy (drop buf_pos buf) (bufsize - buf_pos) message
  some (copied == message_size, (buf_pos + copied, take buf_pos buf ++ tail))

-- `sbufprintf` is the same on its arguments.
unfoldable pub vsbufprintf :
    (buf : List ℕ) (bufsize : ℕ) (fmt : List ℕ) (args : List Arg) → Option (ℕ × List ℕ)
vsbufprintf buf bufsize fmt args =
    let printed : Option (ℕ × List ℕ) =
      vfnprintf (try_add_wrapper bufsize) fmt args (0, buf) >>= λ (returned, state). some state in
    if bufsize == 0 then some (0, buf) else printed
