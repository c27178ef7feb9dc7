-- ===== src/Uart/Writes.antt =====
-- What `try_write` puts on the line.
use pinyon.Prelude.{
  ℕ, zero, suc, ◌+◌, ◌≤◌, ◌≡◌, refl, sym, ap, ◌∙◌, inl, inr, arith, ltb, ◌==◌, if◌then◌else◌,
  Bool-cases, some, List, [], ◌∷◌, ◌++◌, get_elem?, length, length-append,
}
use mathlib.Core.List.{append_assoc, append-nil}
use pinyon.Uart.{Registers, newline, carriage_return, poll_put, try_write, run}

-- The characters on the line for the characters of a buffer: a newline is followed by a carriage
-- return.
unfoldable pub printed : List ℕ → List ℕ
printed [] = []
printed (ch ∷ rest) =
    let after = printed rest in if ch == newline then ch ∷ carriage_return ∷ after else ch ∷ after

pub printed-append : (xs ys : List ℕ) → printed (xs ++ ys) ≡ printed xs ++ printed ys
unfolding printed
printed-append [] ys = refl
printed-append (x ∷ xs) ys = rw (printed-append xs ys) (ground arith)

-- The smaller of two numbers.
unfoldable pub least : ℕ → ℕ → ℕ
least a b = if ltb a b then a else b

get_elem?-middle :
    (done rest : List ℕ) (ch : ℕ) → get_elem? (done ++ (ch ∷ rest)) (length done) ≡ some ch
get_elem?-middle [] rest ch = refl
get_elem?-middle (x ∷ done) rest ch = get_elem?-middle done rest ch

put_char : ℕ → Registers → Registers
put_char ch uart =
    let put = poll_put ch uart in if ch == newline then poll_put carriage_return put else put

put_char-printed :
    (ch : ℕ) (sent : List ℕ) (uart : Registers)
    → record (put_char ch uart) { line = (put_char ch uart).line ++ printed sent }
      ≡ record uart { line = uart.line ++ printed (ch ∷ sent) }
unfolding put_char printed poll_put
put_char-printed ch sent uart = elim (Bool-cases (ch == newline)) [
  | inl e ↦ rw e (
      ap (λ (l : List ℕ). record uart { line = l })
        (append_assoc (uart.line ++ (ch ∷ [])) (carriage_return ∷ []) (printed sent)
          ∙ append_assoc uart.line (ch ∷ []) (carriage_return ∷ printed sent)))
  | inr e ↦ rw e (
      ap (λ (l : List ℕ). record uart { line = l })
        (append_assoc uart.line (ch ∷ []) (printed sent)))
]

pub put_nothing : (uart : Registers) → uart ≡ record uart { line = uart.line ++ printed [] }
unfolding printed
put_nothing uart = ap (λ (l : List ℕ). record uart { line = l }) (sym (append-nil uart.line))

try_write-step :
    (done rest : List ℕ) (ch bufsize room : ℕ) (uart uart' : Registers) (n : ℕ)
    → try_write
        ((done ++ (ch ∷ [])) ++ rest)
        (length (done ++ (ch ∷ [])))
        bufsize
        room
        (put_char ch uart)
      ≡ some (n, uart')
    → try_write (done ++ (ch ∷ rest)) (length done) (suc bufsize) (suc room) uart
      ≡ some (suc n, uart')
unfolding try_write put_char
try_write-step done rest ch bufsize room uart uart' n run =
    let along : (done ++ (ch ∷ [])) ++ rest ≡ done ++ (ch ∷ rest) =
      append_assoc done (ch ∷ []) rest in
    let next : length (done ++ (ch ∷ [])) ≡ length done + 1 = length-append done (ch ∷ []) in
    let run' : try_write (done ++ (ch ∷ rest)) (length done + 1) bufsize room (put_char ch uart)
        ≡ some (n, uart') =
      ap (λ l. try_write l (length done + 1) bufsize room (put_char ch uart)) (sym along)
      ∙ ap (λ k. try_write ((done ++ (ch ∷ [])) ++ rest) k bufsize room (put_char ch uart))
          (sym next)
      ∙ run in
    let up : n + 1 ≡ suc n = omega arith in
    rw (get_elem?-middle done rest ch, run') (ap (λ k. some (k, uart')) up)

-- What `try_write` does behind the part `done` of its buffer.
abbrev Written : (done rest : List ℕ) (bufsize room : ℕ) → Registers → Type 0
Written done rest bufsize room uart =
    (sent : List ℕ) × (left : List ℕ) × (rest ≡ sent ++ left)
    × (length sent ≡ least bufsize room)
    × (try_write (done ++ rest) (length done) bufsize room uart
        ≡ some (length sent, record uart { line = uart.line ++ printed sent }))

pub try_write-Written :
    (done rest : List ℕ) (bufsize room : ℕ) (uart : Registers)
    → bufsize ≤ length rest
    → Written done rest bufsize room uart
unfolding try_write least
try_write-Written done rest zero room uart le =
    ([], rest, refl, ground arith, ap (λ u. some (0, u)) (put_nothing uart))
try_write-Written done rest (suc bufsize) zero uart le =
    ([], rest, refl, ground arith, ap (λ u. some (0, u)) (put_nothing uart))
try_write-Written done [] (suc bufsize) (suc room) uart le = absurd (omega arith)
try_write-Written done (ch ∷ rest) (suc bufsize) (suc room) uart le =
    let (sent, left, split, count, run) =
      try_write-Written (done ++ (ch ∷ [])) rest bufsize room (put_char ch uart) (omega arith) in
    (
      ch ∷ sent,
      left,
      ap (λ (l : List ℕ). ch ∷ l) split,
      ground (arith, count),
      try_write-step done rest ch bufsize room uart _ (length sent) run
          ∙ ap (λ u. some (suc (length sent), u)) (put_char-printed ch sent uart),
    )
