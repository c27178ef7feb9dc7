-- ===== src/Strings.antt =====
-- pine/c_string.cpp on memory from a pointer on, as a list of bytes (the chars, read as unsigned);
-- `none` is a read or a write past its end.
pub mod Compare
pub mod Copy
mod Tests
use pinyon.Prelude.{
  ℕ, ◌+◌, Bool, true, not, ◌&&◌, ltb, ◌==◌, if◌then◌else◌, Option, none, some, ◌>>=◌, List, [], ◌∷◌,
}
use pinyon.Files.{ℤ, pos, negsuc}

unfoldable pub strlen : List ℕ → Option ℕ
strlen [] = none
strlen (c ∷ string) = do
  let rest = strlen string >>= λ n. some (n + 1)
  if c == 0 then some 0 else rest

unfoldable pub strcmp : List ℕ → List ℕ → Option ℤ
strcmp [] second = none
strcmp (a ∷ first) [] = none
strcmp (a ∷ first) (b ∷ second) =
    let rest = strcmp first second in
    if not (a == 0) && not (b == 0)
    then if ltb b a then some (pos 1) else if ltb a b then some (negsuc 0) else rest
    else some (if a == b then pos 0 else pos 1)

-- The loop of `strbufcopy` and the terminator behind it: how many bytes were copied, and the buffer.
unfoldable pub strbufcopy_loop : (copied bufsize : ℕ) (from buf : List ℕ) → Option (ℕ × List ℕ)
strbufcopy_loop copied bufsize [] buf = none
strbufcopy_loop copied bufsize (c ∷ from) [] = none
strbufcopy_loop copied bufsize (c ∷ from) (b ∷ buf) =
    let rest : Option (ℕ × List ℕ) =
      strbufcopy_loop (copied + 1) bufsize from buf >>= λ (n, buf'). some (n, c ∷ buf') in
    if not (c == 0) && ltb (copied + 1) bufsize then rest else some (copied, 0 ∷ buf)

unfoldable pub strbufcopy : (buf : List ℕ) (bufsize : ℕ) (from : List ℕ) → Option (ℕ × List ℕ)
strbufcopy buf bufsize from =
    if bufsize == 0 then some (0, buf) else strbufcopy_loop 0 bufsize from buf

-- `strcopy` from the byte counted `copied` on.
unfoldable pub strcopy_loop : (copied : ℕ) (to from : List ℕ) → Option (ℕ × List ℕ)
strcopy_loop copied to [] = none
strcopy_loop copied [] (c ∷ from) = none
strcopy_loop copied (b ∷ to) (c ∷ from) =
    let rest : Option (ℕ × List ℕ) =
      strcopy_loop (copied + 1) to from >>= λ (n, to'). some (n, c ∷ to') in
    if c == 0 then some (copied, 0 ∷ to) else rest

unfoldable pub strcopy : (to from : List ℕ) → Option (ℕ × List ℕ)
strcopy to from = strcopy_loop 0 to from
