-- ===== src/Uart/Reads.antt =====
-- A read request: what it stores and echoes of the characters that arrive.
use pinyon.Prelude.{
  ℕ, zero, suc, ◌+◌, ◌-◌, ◌≤◌, ◌<◌, ◌≡◌, refl, sym, ap, ◌∙◌, ◌⊎◌, inl, inr, arith, Bool, true,
  false, ◌||◌, ltb, ◌==◌, if◌then◌else◌, Bool-cases, Option, none, some, List, [], ◌∷◌, ◌++◌, set,
  length, length-append, All,
}
use mathlib.Core.List.{append_assoc, append-nil}
use pinyon.BitMap.{has}
use pinyon.Uart.{
  Registers, UartRequest, newline, carriage_return, poll_put, try_read, fill_from_uart, handle_irq,
  irq_bit, clear_irq_of, disable_irq_of, set_irq_of, mask_enable, run,
}

-- The end of a line.
abbrev pub is_break : ℕ → Bool
is_break ch = ch == newline || ch == carriage_return

-- What a line's end, if one was read, takes from the FIFO and puts on the line.
abbrev pub taken : Option ℕ → List ℕ
taken none = []
taken (some ch) = ch ∷ []

abbrev pub echo : Option ℕ → List ℕ
echo none = []
echo (some ch) = newline ∷ []

abbrev pub stopped : Option ℕ → Bool
stopped none = false
stopped (some ch) = true

abbrev pub IsBreak : Option ℕ → Type 0
IsBreak none = Unit
IsBreak (some ch) = is_break ch ≡ true

abbrev pub IsText : List ℕ → Type 0
IsText chars = All (λ ch. is_break ch ≡ false) chars

set-middle :
    (done rest : List ℕ) (old ch : ℕ)
    → set (done ++ (old ∷ rest)) (length done) ch ≡ (done ++ (ch ∷ [])) ++ rest
set-middle [] rest old ch = refl
set-middle (x ∷ done) rest old ch = ap (λ (l : List ℕ). x ∷ l) (set-middle done rest old ch)

-- What `try_read` does behind the part `done` of its buffer.
pub record ReadLine (done rest : List ℕ) (bufsize : ℕ) (fifo : List ℕ) (uart : Registers)
    : Type 0 where
  pub got : List ℕ
  pub left : List ℕ
  pub fifo' : List ℕ
  pub br : Option ℕ
  pub sizes : length rest ≡ length got + length left
  pub most : length got ≤ bufsize
  pub split : fifo ≡ got ++ (taken br ++ fifo')
  pub text : IsText got
  pub breaks : IsBreak br
  pub drained : (length got ≡ bufsize) ⊎ ((stopped br ≡ true) ⊎ (fifo' ≡ []))
  pub result :
      try_read (done ++ rest) (length done) bufsize fifo uart
      ≡ some (
        (length got, stopped br),
        done ++ (got ++ left),
        record uart { line = uart.line ++ (got ++ echo br); fifo = fifo' },
      )

try_read-step :
    (done rest : List ℕ) (old ch bufsize : ℕ) (fifo : List ℕ) (uart uart' : Registers) (n : ℕ)
    (b : Bool) (buf' : List ℕ)
    → is_break ch ≡ false
    → try_read
        ((done ++ (ch ∷ [])) ++ rest)
        (length (done ++ (ch ∷ [])))
        bufsize
        fifo
        (poll_put ch uart)
      ≡ some ((n, b), buf', uart')
    → try_read (done ++ (old ∷ rest)) (length done) (suc bufsize) (ch ∷ fifo) uart
      ≡ some ((suc n, b), buf', uart')
unfolding try_read
try_read-step done rest old ch bufsize fifo uart uart' n b buf' text run =
    let next : length done + 1 ≡ length (done ++ (ch ∷ [])) =
      omega (arith, length-append done (ch ∷ [])) in
    let inside : ltb (length done) (length (done ++ (old ∷ rest))) ≡ true =
      ground (arith, length-append done (old ∷ rest)) in
    let up : n + 1 ≡ suc n = omega arith in
    rw (text, inside, set-middle done rest old ch, next, run)
      (ap (λ k. some ((k, b), buf', uart')) up)

poll_put-read :
    (done got left : List ℕ) (n ch : ℕ) (br : Option ℕ) (fifo : List ℕ) (uart : Registers)
    → ◌≡◌ {A = Option ((ℕ × Bool) × List ℕ × Registers)}
        (some (
          (n, stopped br),
          (done ++ (ch ∷ [])) ++ (got ++ left),
          record (poll_put ch uart) {
            line = (poll_put ch uart).line ++ (got ++ echo br);
            fifo = fifo;
          },
        ))
        (some (
          (n, stopped br),
          done ++ (ch ∷ got ++ left),
          record uart { line = uart.line ++ (ch ∷ got ++ echo br); fifo = fifo },
        ))
unfolding poll_put
poll_put-read done got left n ch br fifo uart =
    ap
      (λ (b : List ℕ). some (
        (n, stopped br),
        b,
        record uart { line = (uart.line ++ (ch ∷ [])) ++ (got ++ echo br); fifo = fifo },
      ))
      (append_assoc done (ch ∷ []) (got ++ left))
    ∙ ap
        (λ (l : List ℕ).
          some ((n, stopped br), done ++ (ch ∷ got ++ left), record uart { line = l; fifo = fifo }))
        (append_assoc uart.line (ch ∷ []) (got ++ echo br))

try_read-break :
    (buf : List ℕ) (offset ch bufsize : ℕ) (fifo : List ℕ) (uart : Registers)
    → is_break ch ≡ true
    → try_read buf offset (suc bufsize) (ch ∷ fifo) uart
      ≡ some ((0, true), buf, record uart { line = uart.line ++ (newline ∷ []); fifo = fifo })
unfolding try_read poll_put
try_read-break buf offset ch bufsize fifo uart broke = rw broke refl

try_read-nothing :
    (done rest : List ℕ) (bufsize : ℕ) (fifo : List ℕ) (uart : Registers)
    → try_read (done ++ rest) (length done) bufsize fifo uart
      ≡ some ((0, false), done ++ rest, record uart { fifo = fifo })
    → (0 ≡ bufsize) ⊎ (fifo ≡ [])
    → ReadLine done rest bufsize fifo uart
try_read-nothing done rest bufsize fifo uart run why = record {
  got = [];
  left = rest;
  fifo' = fifo;
  br = none;
  sizes = omega arith;
  most = omega arith;
  split = refl;
  text = tt;
  breaks = tt;
  drained = elim why [ inl full ↦ inl full | inr dry ↦ inr (inr dry) ];
  result =
      run
      ∙ ap (λ (l : List ℕ). some ((0, false), done ++ rest, record uart { line = l; fifo = fifo }))
          (sym (append-nil uart.line));
}

pub try_read-ReadLine :
    (done rest : List ℕ) (bufsize : ℕ) (fifo : List ℕ) (uart : Registers)
    → bufsize ≤ length rest
    → ReadLine done rest bufsize fifo uart
unfolding try_read
try_read-ReadLine done rest zero fifo uart le =
    try_read-nothing done rest zero fifo uart refl (inl refl)
try_read-ReadLine done rest (suc bufsize) [] uart le =
    try_read-nothing done rest (suc bufsize) [] uart refl (inr refl)
try_read-ReadLine done [] (suc bufsize) (ch ∷ fifo) uart le = absurd (omega arith)
try_read-ReadLine done (old ∷ rest) (suc bufsize) (ch ∷ fifo) uart le =
    elim (Bool-cases (is_break ch)) [
      | inl broke ↦ record {
        got = [];
        left = old ∷ rest;
        fifo' = fifo;
        br = some ch;
        sizes = omega arith;
        most = omega arith;
        split = refl;
        text = tt;
        breaks = broke;
        drained = inr (inl refl);
        result = try_read-break (done ++ (old ∷ rest)) (length done) ch bufsize fifo uart broke;
      }
      | inr text ↦
          let more =
            try_read-ReadLine (done ++ (ch ∷ [])) rest bufsize fifo (poll_put ch uart)
              (omega arith) in
          record {
            got = ch ∷ more.got;
            left = more.left;
            fifo' = more.fifo';
            br = more.br;
            sizes = omega (arith, more.sizes);
            most = omega (arith, more.most);
            split = ap (λ (l : List ℕ). ch ∷ l) more.split;
            text = (text, more.text);
            breaks = more.breaks;
            drained = elim more.drained [ inl full ↦ inl (ap suc full) | inr why ↦ inr why ];
            result =
                try_read-step done rest old ch bufsize fifo uart _ (length more.got)
                  (stopped more.br) _ text more.result
                ∙ poll_put-read done more.got more.left (suc (length more.got)) ch more.br
                    more.fifo' uart;
          }
    ]

-- A read request of `size` characters on a line that had `before`, when `arrived` has come so far:
-- the text up to a line's end is stored in the buffer and echoed, the end is echoed as a newline, and
-- the rest is in the FIFO. The interrupt stays on until the request has finished.
pub record ReadSoFar (before arrived : List ℕ) (size : ℕ) (s : UartRequest × Registers)
    : Type 0 where
  pub stored : List ℕ
  pub left : List ℕ
  pub br : Option ℕ
  pub reads : s.0.is_write_request ≡ false
  pub whole : s.0.buf ≡ stored ++ left
  pub count : length stored ≡ s.0.size
  pub split : arrived ≡ stored ++ (taken br ++ s.1.fifo)
  pub shown : s.1.line ≡ before ++ (stored ++ echo br)
  pub text : IsText stored
  pub breaks : IsBreak br
  pub space : size ≤ length stored + length left
  pub bound : s.0.size ≤ size
  pub end : s.0.capacity ≡ (if stopped br then s.0.size else size)
  pub on : s.0.size < s.0.capacity → has s.1.imsc (irq_bit false) ≡ true

-- The request has all it asked for, or the FIFO is empty.
abbrev pub IsDrained : UartRequest × Registers → Type 0
IsDrained s = (s.0.size ≡ s.0.capacity) ⊎ (s.1.fifo ≡ [])

pub handle_irq-read :
    (room : ℕ) (request : UartRequest) (uart : Registers) (n : ℕ) (b : Bool) (buf' : List ℕ)
    (uart' : Registers)
    → request.is_write_request ≡ false
    → try_read request.buf request.size
        (request.capacity - request.size)
        uart.fifo
        (clear_irq_of false uart)
      ≡ some ((n, b), buf', uart')
    → (u : Registers) × (handle_irq room request uart
        ≡ some (
          record request {
            buf = buf';
            size = request.size + n;
            capacity = if b then request.size + n else request.capacity;
          },
          u,
        ))
      × (u.line ≡ uart'.line)
      × (u.fifo ≡ uart'.fifo)
      × (request.size + n < (if b then request.size + n else request.capacity)
          → u.imsc ≡ uart'.imsc)
unfolding handle_irq fill_from_uart set_irq_of disable_irq_of mask_enable clear_irq_of
handle_irq-read room request uart n b buf' uart' e run =
    elim (Bool-cases (request.size + n == (if b then request.size + n else request.capacity))) [
      | inl full ↦
          (disable_irq_of false uart', rw (e, run, full) refl, refl, refl, λ lt. ground arith)
      | inr more ↦ (uart', rw (e, run, more) refl, refl, refl, λ lt. refl)
    ]
