-- ===== src/Userspace/Prints.antt =====
-- What printf writes when the text fits into the first buffer.
use mathlib.Core.List.{append_assoc, append-nil}
use pinyon.Prelude.{
  ℕ, zero, suc, ◌+◌, ◌*◌, ◌%◌, ◌≤◌, ◌<◌, ◌≡◌, refl, sym, ap, ◌∙◌, arith, Bool, true, false, leb,
  ◌==◌, if◌then◌else◌, Option, some, List, [], ◌∷◌, ◌++◌, length, length-append,
}
use pinyon.FreeList.{Allocation}
use pinyon.Strings.Compare.{IsText, strlen-text}
use pinyon.Print.{Arg, char_at, type_position, format_loop, vfnprintf}
use pinyon.Print.Adds.{take-append_front}
use pinyon.Print.Directives.{Prints, Prints-Formats}
use pinyon.Print.Rounds.{
  Formats, ends, bails, literal, adds, type_position-after, format_loop-end, format_loop-literal,
  format_loop-bails, format_loop-adds,
}
use pinyon.Userspace.{
  Program, Printing, put_chars, get_chars, free, copied_behind, try_add_wrapper, printf,
}

put_chars-below :
    (cs : List ℕ) (place at : ℕ) (bytes : ℕ → ℕ)
    → at < place
    → put_chars place cs bytes at ≡ bytes at
unfolding put_chars
put_chars-below [] place at bytes below = refl
put_chars-below (c ∷ cs) place at bytes below =
    let d : (at == place) ≡ false = ground arith in
    put_chars-below cs (place + 1) at (λ q. if q == place then c else bytes q) (omega arith)
    ∙ ap (λ (b : Bool). if b then c else bytes at) d

get_chars-below :
    (n place from : ℕ) (cs : List ℕ) (bytes : ℕ → ℕ)
    → place + n ≤ from
    → get_chars place n (put_chars from cs bytes) ≡ get_chars place n bytes
unfolding get_chars
get_chars-below zero place from cs bytes below = refl
get_chars-below (suc n) place from cs bytes below =
    rw (put_chars-below cs from place bytes (omega arith)) (
      ap (λ (t : List ℕ). bytes place ∷ t)
        (get_chars-below n (place + 1) from cs bytes (omega arith)))

get_chars-put :
    (cs xs : List ℕ) (place : ℕ) (bytes : ℕ → ℕ)
    → get_chars place (length cs) (put_chars place (cs ++ xs) bytes) ≡ cs
unfolding get_chars put_chars
get_chars-put [] xs place bytes = refl
get_chars-put (c ∷ cs) xs place bytes =
    let here : (place == place) ≡ true = ground arith in
    rw
      (
        put_chars-below (cs ++ xs) (place + 1) place (λ q. if q == place then c else bytes q)
            (omega arith),
        here,
      )
      (ap (λ (t : List ℕ). c ∷ t)
        (get_chars-put cs xs (place + 1) (λ q. if q == place then c else bytes q)))

get_chars-add :
    (n m place : ℕ) (bytes : ℕ → ℕ)
    → get_chars place (n + m) bytes ≡ get_chars place n bytes ++ get_chars (place + n) m bytes
unfolding get_chars
get_chars-add zero m place bytes =
    let a : 0 + m ≡ m = omega arith in
    let b : place ≡ place + 0 = omega arith in
    ap (λ (k : ℕ). get_chars place k bytes) a ∙ ap (λ (p : ℕ). get_chars p m bytes) b
get_chars-add (suc n) m place bytes =
    let a : suc n + m ≡ suc (n + m) = omega arith in
    let b : place + 1 + n ≡ place + suc n = omega arith in
    ap (λ (k : ℕ). get_chars place k bytes) a
    ∙ ap (λ (t : List ℕ). bytes place ∷ t)
        (get_chars-add n m (place + 1) bytes
          ∙ ap (λ (p : ℕ). get_chars (place + 1) n bytes ++ get_chars p m bytes) b)

module _ {P : Type 0} (malloc : ℕ → Program P → Option (Allocation × Program P)) (t : Printing P)
    (room : t.bufsize < 4294967296) where
  -- The state after `p` chars, with other bytes in memory.
  abbrev pub at : ℕ → (ℕ → ℕ) → Printing P
  at p bytes =
      let program = t.program in
      record t { print_buf_pos = p; program = record program { bytes = bytes } }

  abbrev next : (W cs : List ℕ) (bytes : ℕ → ℕ) → ℕ → ℕ
  next W cs bytes = put_chars (t.print_buf + length W) (cs ++ (0 ∷ [])) bytes

  -- A text that fits is copied behind what was printed.
  try_add_wrapper-fits :
      (W cs x : List ℕ) (bytes : ℕ → ℕ)
      → IsText cs
      → length W + length cs < t.bufsize
      → try_add_wrapper malloc (cs ++ (0 ∷ x)) (at (length W) bytes)
        ≡ some (true, at (length (W ++ cs)) (next W cs bytes))
  unfolding try_add_wrapper copied_behind
  try_add_wrapper-fits W cs x bytes texts fits =
      let sum : (length W + length cs) % 4294967296 ≡ length W + length cs = omega arith in
      let small : leb t.bufsize (length W + length cs) ≡ false = ground arith in
      rw (strlen-text cs x texts, sum, small, take-append_front cs (0 ∷ x), length-append W cs) refl

  next-get_chars :
      (W cs : List ℕ) (bytes : ℕ → ℕ)
      → get_chars t.print_buf (length W) bytes ≡ W
      → get_chars t.print_buf (length (W ++ cs)) (next W cs bytes) ≡ W ++ cs
  next-get_chars W cs bytes before =
      ap (λ (n : ℕ). get_chars t.print_buf n (next W cs bytes)) (length-append W cs)
      ∙ get_chars-add (length W) (length cs) t.print_buf (next W cs bytes)
      ∙ ap (λ (l : List ℕ). l ++ get_chars (t.print_buf + length W) (length cs) (next W cs bytes))
          (get_chars-below (length W) t.print_buf (t.print_buf + length W) (cs ++ (0 ∷ [])) bytes
              (omega arith)
            ∙ before)
      ∙ ap (λ (l : List ℕ). W ++ l) (get_chars-put cs (0 ∷ []) (t.print_buf + length W) bytes)

  -- The loop ended with all of a text behind `W`.
  abbrev pub Printed : (W text : List ℕ) → Option (Bool × Printing P) → Type 0
  Printed W text result =
      (ok : Bool) × (bytes : ℕ → ℕ) × (result ≡ some (ok, at (length (W ++ text)) bytes))
      × (get_chars t.print_buf (length (W ++ text)) bytes ≡ W ++ text)

  Printed-here :
      (W : List ℕ) (bytes : ℕ → ℕ) (ok : Bool) (result : Option (Bool × Printing P))
      → get_chars t.print_buf (length W) bytes ≡ W
      → result ≡ some (ok, at (length W) bytes)
      → Printed W [] result
  Printed-here W bytes ok result before run =
      let e = append-nil W in
      (
        ok,
        bytes,
        run ∙ ap (λ (l : List ℕ). some (ok, at (length l) bytes)) (sym e),
        ap (λ (l : List ℕ). get_chars t.print_buf (length l) bytes) e ∙ before ∙ sym e,
      )

  Printed-later :
      (W cs text : List ℕ) (result later : Option (Bool × Printing P))
      → result ≡ later
      → Printed (W ++ cs) text later
      → Printed W (cs ++ text) result
  Printed-later W cs text result later step (ok, bytes, run, whole) =
      let e = append_assoc W cs text in
      (
        ok,
        bytes,
        step ∙ run ∙ ap (λ (l : List ℕ). some (ok, at (length l) bytes)) e,
        ap (λ (l : List ℕ). get_chars t.print_buf (length l) bytes) (sym e) ∙ whole ∙ e,
      )

  pub format_loop-Printed :
      (view : List ℕ) (fuel position : ℕ) (args : List Arg) (text : List ℕ)
      → Formats view position args text
      → (W : List ℕ) (bytes : ℕ → ℕ) → get_chars t.print_buf (length W) bytes ≡ W
      → 0 < fuel
      → length view < fuel + position
      → length W + length text < t.bufsize
      → Printed W text
          (format_loop (try_add_wrapper malloc) fuel view position args (at (length W) bytes))
  format_loop-Printed view zero position args text f W bytes before some_fuel enough fits =
      absurd (omega arith)
  format_loop-Printed view (suc fuel) _ _ _ (ends past) W bytes before some_fuel enough fits =
      Printed-here W bytes true _ before
        (format_loop-end (try_add_wrapper malloc) fuel view _ _ _ past)
  format_loop-Printed view (suc fuel) _ _ _ (bails here percent c) W bytes before some_fuel enough
        fits =
      Printed-here W bytes false _ before
        (format_loop-bails (try_add_wrapper malloc) fuel view _ _ _ here percent c)
  format_loop-Printed view (suc fuel) _ _ _
        (literal {position} {args} {text} here other some_char f) W bytes before some_fuel enough
        fits =
      let cs = char_at view position ∷ [] in
      let n = length-append W cs in
      Printed-later W cs text _ _
        (format_loop-literal (try_add_wrapper malloc) fuel view position args (at (length W) bytes)
          _ _ here other (try_add_wrapper-fits W cs [] bytes (some_char, tt) (omega arith)))
        (format_loop-Printed view fuel (position + 1) args text f (W ++ cs) (next W cs bytes)
          (next-get_chars W cs bytes before) (omega arith) (omega arith) (omega (arith, n)))
  format_loop-Printed view (suc fuel) _ _ _
        (adds {position} {args} {args'} {text} cs x here percent c texts f) W bytes before some_fuel
        enough fits =
      let n = length-append W cs in
      let m = length-append cs text in
      Printed-later W cs text _ _
        (format_loop-adds (try_add_wrapper malloc) fuel view position args (at (length W) bytes)
          (cs ++ (0 ∷ x)) args' _ here percent c
          (try_add_wrapper-fits W cs x bytes texts (omega (arith, m))))
        (format_loop-Printed view fuel (type_position view position + 1) args' text f (W ++ cs)
          (next W cs bytes) (next-get_chars W cs bytes before) (omega arith)
          (omega (arith, type_position-after view position)) (omega (arith, n, m)))

no_chars : (place : ℕ) (bytes : ℕ → ℕ) → get_chars place 0 bytes ≡ []
unfolding get_chars
no_chars place bytes = refl

-- Let a terminated format ask for a text of the arguments by its chars alone, as `Prints` says: plain
-- chars, `%%`, `%s`, `%c`, `%u` and `%d` with their marks, up to the end or an unknown type char, without
-- `%x`, `%p` and the least integer. If the text is shorter than twice the format, it is printed over a
-- `malloc` that gives a buffer of twice the format's length, which is within the word: the text is added
-- to what the program wrote, and the buffer is freed.
pub printf-written :
    {P : Type 0} (malloc : ℕ → Program P → Option (Allocation × Program P)) (view x : List ℕ)
    (args : List Arg) (text : List ℕ) (u u' : Program P) (alloc : Allocation)
    → IsText view
    → Prints view args text
    → length text < length view * 2
    → length view * 2 < 4294967296
    → malloc (length view * 2) u ≡ some (alloc, u')
    → 0 < alloc.size
    → (bytes : ℕ → ℕ) × (printf malloc (view ++ (0 ∷ x)) args u
        ≡ free alloc (record u' { bytes = bytes; written = u'.written ++ text }))
unfolding printf vfnprintf
printf-written malloc view x args text u u' alloc texts p short small given some_size =
    let f = Prints-Formats view 0 p refl in
    let t : Printing _ = record {
      bufsize = length view * 2;
      print_alloc = alloc;
      print_buf = alloc.ptr;
      print_buf_pos = 0;
      program = u';
    } in
    let (ok, bytes, run, whole) =
      format_loop-Printed malloc t small view (length view + 1) 0 args text f [] u'.bytes
        (no_chars t.print_buf u'.bytes) (omega arith) (omega arith) (omega arith) in
    let size : length view * 2 % 4294967296 ≡ length view * 2 = omega arith in
    let nz : (alloc.size == 0) ≡ false = ground (arith, some_size) in
    (
      bytes,
      rw (strlen-text view x texts, size, given, nz, take-append_front view (0 ∷ x), run, whole)
          refl,
    )
