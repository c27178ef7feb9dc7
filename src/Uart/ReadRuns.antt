-- ===== src/Uart/ReadRuns.antt =====
-- A read request over a run of events.
use pinyon.Prelude.{
  ℕ, subst, ◌+◌, ◌-◌, ◌≤◌, ◌<◌, ◌≡◌, refl, sym, ap, ◌∙◌, inl, inr, arith, true, false, ltb,
  if◌then◌else◌, Bool-cases, Option-cases, Option, none, some, ◌>>=◌, List, [], ◌∷◌, ◌++◌, length,
  length-append,
}
use mathlib.Core.List.{append_assoc, append-nil}
use pinyon.BitMap.{has}
use pinyon.Uart.{
  Registers, UartRequest, Event, arrive, interrupt, try_read, is_finished, construct, handle_irq,
  irq_bit, clear_irq_of, enable_irq_of, set_irq_of, mask_disable, step, run, start,
}
use pinyon.Uart.WriteRuns.{with_bit-has}
use pinyon.Uart.Reads.{
  taken, echo, stopped, IsText, ReadLine, try_read-ReadLine, ReadSoFar, IsDrained, handle_irq-read,
}

IsText-append : (xs ys : List ℕ) → IsText xs → IsText ys → IsText (xs ++ ys)
IsText-append [] ys all also = also
IsText-append (x ∷ xs) ys all also = (all.0, IsText-append xs ys all.1 also)

abbrev after : UartRequest → (got buf : List ℕ) → Option ℕ → UartRequest
after request got buf br = record request {
  buf = buf;
  size = request.size + length got;
  capacity = if stopped br then request.size + length got else request.capacity;
}

module _ (before arrived : List ℕ) (size : ℕ) (request : UartRequest) (uart : Registers)
    (w : ReadSoFar before arrived size (request, uart)) where
  -- The request goes on where it stood, if no line's end was read.
  continued :
      w.br ≡ none
      → (more : ReadLine w.stored w.left
          (request.capacity - request.size)
          uart.fifo
          (clear_irq_of false uart))
      → (u : Registers) → u.line ≡ uart.line ++ (more.got ++ echo more.br)
      → u.fifo ≡ more.fifo'
      → (request.size + length more.got
            < (if stopped more.br then request.size + length more.got else request.capacity)
          → u.imsc ≡ uart.imsc)
      → ReadSoFar before arrived size
          (after request more.got (w.stored ++ (more.got ++ more.left)) more.br, u)
  continued open' more u line fifo mask =
      let ends : request.capacity ≡ size =
        w.end ∙ ap (λ b. if stopped b then request.size else size) open' in
      record {
        stored = w.stored ++ more.got;
        left = more.left;
        br = more.br;
        reads = w.reads;
        whole = sym (append_assoc w.stored more.got more.left);
        count = omega (arith, length-append w.stored more.got, w.count);
        split =
            w.split
            ∙ ap (λ b. w.stored ++ (taken b ++ uart.fifo)) open'
            ∙ ap (λ (l : List ℕ). w.stored ++ l) more.split
            ∙ sym (append_assoc w.stored more.got (taken more.br ++ more.fifo'))
            ∙ ap (λ (l : List ℕ). (w.stored ++ more.got) ++ (taken more.br ++ l)) (sym fifo);
        shown =
            line
            ∙ ap (λ (l : List ℕ). l ++ (more.got ++ echo more.br))
                (w.shown
                  ∙ ap (λ b. before ++ (w.stored ++ echo b)) open'
                  ∙ ap (λ (l : List ℕ). before ++ l) (append-nil w.stored))
            ∙ append_assoc before w.stored (more.got ++ echo more.br)
            ∙ ap (λ (l : List ℕ). before ++ l)
                (sym (append_assoc w.stored more.got (echo more.br)));
        text = IsText-append w.stored more.got w.text more.text;
        breaks = more.breaks;
        space = omega (arith, length-append w.stored more.got, w.space, more.sizes);
        bound = omega (arith, more.most, w.bound, ends);
        end = ap (λ (n : ℕ). if stopped more.br then request.size + length more.got else n) ends;
        on = λ lt. ap (λ k. has k (irq_bit false)) (mask lt) ∙ w.on (ground (arith, lt));
      }

  -- A request that a line's end stopped stays as it is.
  finished :
      (c : ℕ)
      → w.br ≡ some c
      → (u : Registers) → u.line ≡ uart.line
      → u.fifo ≡ uart.fifo
      → ReadSoFar before arrived size (after request [] request.buf none, u)
  finished c closed u line fifo =
      let ends : request.capacity ≡ request.size =
        w.end ∙ ap (λ b. if stopped b then request.size else size) closed in
      record {
        stored = w.stored;
        left = w.left;
        br = w.br;
        reads = w.reads;
        whole = w.whole;
        count = omega (arith, w.count);
        split = w.split ∙ ap (λ (l : List ℕ). w.stored ++ (taken w.br ++ l)) (sym fifo);
        shown = line ∙ w.shown;
        text = w.text;
        breaks = w.breaks;
        space = w.space;
        bound = omega (arith, w.bound);
        end = rw closed (omega (arith, ends));
        on = λ lt. absurd (omega (arith, ends, lt));
      }

  abbrev Kept : ℕ → Type 0
  Kept room =
      (t : UartRequest × Registers) × (handle_irq room request uart ≡ some t)
      × ReadSoFar before arrived size t
      × IsDrained t

  after-IsDrained :
      (more : ReadLine w.stored w.left
        (request.capacity - request.size)
        uart.fifo
        (clear_irq_of false uart))
      → (u : Registers) → request.size ≤ request.capacity
      → u.fifo ≡ more.fifo'
      → IsDrained (after request more.got (w.stored ++ (more.got ++ more.left)) more.br, u)
  after-IsDrained more u le fifo = elim (Bool-cases (stopped more.br)) [
    | inl broke ↦ inl (rw broke refl)
    | inr text ↦ elim more.drained [
      | inl full ↦ inl (rw text (omega (arith, full)))
      | inr (inl broke) ↦ absurd cc
      | inr (inr dry) ↦ inr (fifo ∙ dry)
    ]
  ]

  interrupted_with :
      (room : ℕ)
      → w.br ≡ none
      → (more : ReadLine w.stored w.left
          (request.capacity - request.size)
          uart.fifo
          (clear_irq_of false uart))
      → Kept room
  unfolding clear_irq_of
  interrupted_with room open' more =
      let ends : request.capacity ≡ size =
        w.end ∙ ap (λ b. if stopped b then request.size else size) open' in
      let run' =
        ap
          (λ l.
            try_read l request.size (request.capacity - request.size) uart.fifo
              (clear_irq_of false uart))
          w.whole
        ∙ ap
            (λ k.
              try_read (w.stored ++ w.left) k (request.capacity - request.size) uart.fifo
                (clear_irq_of false uart))
            (sym w.count)
        ∙ more.result in
      let (u, done, line, fifo, mask) =
        handle_irq-read room request uart (length more.got) (stopped more.br) _ _ w.reads run' in
      (
        _,
        done,
        continued open' more u line fifo mask,
        after-IsDrained more u (omega (arith, ends, w.bound)) fifo,
      )

  interrupted_open : (room : ℕ) → w.br ≡ none → Kept room
  interrupted_open room open' =
      let ends : request.capacity ≡ size =
        w.end ∙ ap (λ b. if stopped b then request.size else size) open' in
      interrupted_with room open' (
        try_read-ReadLine w.stored w.left (request.capacity - request.size) uart.fifo
          (clear_irq_of false uart) (omega (arith, ends, w.count, w.space)))

  interrupted_closed : (room c : ℕ) → w.br ≡ some c → Kept room
  unfolding clear_irq_of try_read
  interrupted_closed room c closed =
      let ends : request.capacity ≡ request.size =
        w.end ∙ ap (λ b. if stopped b then request.size else size) closed in
      let none' : request.capacity - request.size ≡ 0 = omega (arith, ends) in
      let (u, done, line, fifo, mask) =
        handle_irq-read room request uart 0 false request.buf
          (record (clear_irq_of false uart) { fifo = uart.fifo }) w.reads (rw none' refl) in
      (_, done, finished c closed u line fifo, inl (omega (arith, ends)))

  interrupted : (room : ℕ) → Kept room
  interrupted room = elim (Option-cases w.br) [
    | inl open' ↦ interrupted_open room open'
    | inr (c, closed) ↦ interrupted_closed room c closed
  ]

  -- With the interrupt off, the request has all it asked for.
  masked :
      has uart.imsc (irq_bit request.is_write_request) ≡ false → request.size ≡ request.capacity
  masked off =
      let off' : has uart.imsc (irq_bit false) ≡ false =
        ap (λ b. has uart.imsc (irq_bit b)) (sym w.reads) ∙ off in
      elim (Bool-cases (ltb request.size request.capacity)) [
        | inl less ↦ let on = w.on (ground (arith, less)) in absurd cc
        | inr more ↦ ground (arith, w.end, w.bound, more)
      ]

  arrived_later :
      (ch : ℕ)
      → ReadSoFar before
          (arrived ++ (ch ∷ []))
          size
          (request, record uart { fifo = uart.fifo ++ (ch ∷ []) })
  arrived_later ch = record {
    stored = w.stored;
    left = w.left;
    br = w.br;
    reads = w.reads;
    whole = w.whole;
    count = w.count;
    split =
        ap (λ (l : List ℕ). l ++ (ch ∷ [])) w.split
        ∙ append_assoc w.stored (taken w.br ++ uart.fifo) (ch ∷ [])
        ∙ ap (λ (l : List ℕ). w.stored ++ l) (append_assoc (taken w.br) uart.fifo (ch ∷ []));
    shown = w.shown;
    text = w.text;
    breaks = w.breaks;
    space = w.space;
    bound = w.bound;
    end = w.end;
    on = w.on;
  }

-- The characters that arrive during the events.
abbrev pub arrivals : List Event → List ℕ
arrivals [] = []
arrivals (arrive ch ∷ events) = ch ∷ arrivals events
arrivals (interrupt room ∷ events) = arrivals events

interrupt-ReadSoFar :
    (before arrived : List ℕ) (size room : ℕ) (s : UartRequest × Registers)
    → ReadSoFar before arrived size s
    → (t : UartRequest × Registers) × (step (interrupt room) s ≡ some t)
      × ReadSoFar before arrived size t
      × IsDrained t
unfolding step
interrupt-ReadSoFar before arrived size room (request, uart) w =
    elim (Bool-cases (has uart.imsc (irq_bit request.is_write_request))) [
      | inl on ↦
          let (t, done, w', dry) = interrupted before arrived size request uart w room in
          (t, rw on done, w', dry)
      | inr off ↦
          ((request, uart), rw off refl, w, inl (masked before arrived size request uart w off))
    ]

run-ReadSoFar :
    (before arrived : List ℕ) (size : ℕ) (events : List Event) (s : UartRequest × Registers)
    → ReadSoFar before arrived size s
    → (t : UartRequest × Registers) × (run events s ≡ some t)
      × ReadSoFar before (arrived ++ arrivals events) size t
unfolding run step
run-ReadSoFar before arrived size [] s w =
    (s, refl, subst (λ l. ReadSoFar before l size s) (sym (append-nil arrived)) w)
run-ReadSoFar before arrived size (arrive ch ∷ events) (request, uart) w =
    let (t, rest, w') =
      run-ReadSoFar before (arrived ++ (ch ∷ [])) size events _
        (arrived_later before arrived size request uart w ch) in
    (
      t,
      rest,
      subst (λ l. ReadSoFar before l size t) (append_assoc arrived (ch ∷ []) (arrivals events)) w',
    )
run-ReadSoFar before arrived size (interrupt room ∷ events) s w =
    let (t, first, w', _) = interrupt-ReadSoFar before arrived size room s w in
    let (u, rest, w'') = run-ReadSoFar before arrived size events t w' in
    (u, ap (λ o. o >>= run events) first ∙ rest, w'')

-- A read of at most `size` characters into a buffer that has room for them, on a free UART, never
-- faults, whatever the events: a line of text is stored and echoed up to its end or to `size`
-- characters, in the order of arrival, nothing is lost, and after an interrupt the request has
-- finished or the FIFO is empty.
pub start-ReadSoFar :
    (buf : List ℕ) (size room : ℕ) (events : List Event) (previous : UartRequest) (uart : Registers)
    → is_finished previous ≡ true
    → size ≤ length buf
    → (s : UartRequest × Registers) × (t : UartRequest × Registers) × ((start false buf size
            (previous, uart)
          >>= run events)
        ≡ some s)
      × (step (interrupt room) s ≡ some t)
      × ReadSoFar uart.line (uart.fifo ++ arrivals events) size s
      × ReadSoFar uart.line (uart.fifo ++ arrivals events) size t
      × IsDrained t
unfolding start construct set_irq_of enable_irq_of mask_disable
start-ReadSoFar buf size room events previous uart free le =
    let w : ReadSoFar uart.line uart.fifo size (
      record { buf = buf; size = 0; capacity = size; is_write_request = false },
      enable_irq_of false uart,
    ) =
      record {
        stored = [];
        left = buf;
        br = none;
        reads = refl;
        whole = refl;
        count = refl;
        split = refl;
        shown = sym (append-nil uart.line);
        text = tt;
        breaks = tt;
        space = omega arith;
        bound = omega arith;
        end = refl;
        on = λ lt. with_bit-has (irq_bit false) uart.imsc;
      } in
    let (s, done, w') = run-ReadSoFar uart.line uart.fifo size events _ w in
    let (t, last, w'', dry) =
      interrupt-ReadSoFar uart.line (uart.fifo ++ arrivals events) size room s w' in
    (s, t, rw free done, last, w', w'', dry)
