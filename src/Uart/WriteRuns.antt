-- ===== src/Uart/WriteRuns.antt =====
-- A write request over a run of events.
use pinyon.Prelude.{
  ℕ, subst, ltb→le, ◌+◌, ◌-◌, ◌≤◌, ◌<◌, ◌≡◌, refl, sym, ap, ◌∙◌, inl, inr, arith, true, false, ltb,
  ◌==◌, Bool-cases, some, ◌>>=◌, List, [], ◌∷◌, ◌++◌, length, length-append,
}
use mathlib.Core.List.{append_assoc}
use pinyon.BitMap.{has}
use pinyon.BitMap.Bits.{has-add}
use pinyon.Uart.{
  Registers, UartRequest, Event, arrive, interrupt, try_write, is_finished, construct,
  fill_from_uart, handle_irq, irq_bit, with_bit, clear_irq_of, enable_irq_of, disable_irq_of,
  set_irq_of, mask_disable, mask_enable, step, run, start,
}
use pinyon.Uart.Writes.{printed, printed-append, least, put_nothing, try_write-Written}

-- A write request of `message` on a line that had `before`, after interrupts with room for `room`
-- characters in all: the first of them are on the line, as many as there was room for, and the
-- interrupt stays on until all are.
pub record WrittenSoFar (before message : List ℕ) (room : ℕ) (s : UartRequest × Registers)
    : Type 0 where
  pub sent : List ℕ
  pub left : List ℕ
  pub writes : s.0.is_write_request ≡ true
  pub whole : s.0.buf ≡ message
  pub split : message ≡ sent ++ left
  pub end : s.0.capacity ≡ length message
  pub count : length sent ≡ s.0.size
  pub most : s.0.size ≡ least (length message) room
  pub shown : s.1.line ≡ before ++ printed sent
  pub on : s.0.size < s.0.capacity → has s.1.imsc (irq_bit true) ≡ true

abbrev pub rooms : List Event → ℕ
rooms [] = 0
rooms (arrive ch ∷ events) = rooms events
rooms (interrupt room ∷ events) = room + rooms events

handle_irq-write :
    (room : ℕ) (request : UartRequest) (uart : Registers) (n : ℕ) (uart' : Registers)
    → request.is_write_request ≡ true
    → try_write request.buf request.size
        (request.capacity - request.size)
        room
        (clear_irq_of true uart)
      ≡ some (n, uart')
    → (u : Registers) × (handle_irq room request uart
        ≡ some (record request { size = request.size + n }, u))
      × (u.line ≡ uart'.line)
      × (request.size + n < request.capacity → u.imsc ≡ uart'.imsc)
unfolding handle_irq fill_from_uart set_irq_of disable_irq_of mask_enable
handle_irq-write room request uart n uart' e run =
    elim (Bool-cases (request.size + n == request.capacity)) [
      | inl full ↦ (disable_irq_of true uart', rw (e, run, full) refl, refl, λ lt. ground arith)
      | inr more ↦ (uart', rw (e, run, more) refl, refl, λ lt. refl)
    ]

interrupted-WrittenSoFar :
    (before message : List ℕ) (room n : ℕ) (request : UartRequest) (uart : Registers)
    → WrittenSoFar before message room (request, uart)
    → (t : UartRequest × Registers) × (handle_irq n request uart ≡ some t)
      × WrittenSoFar before message (room + n) t
unfolding clear_irq_of least
interrupted-WrittenSoFar before message room n request uart w =
    let (more, rest, split', count', run') =
      try_write-Written w.sent w.left (request.capacity - request.size) n (clear_irq_of true uart)
        (omega (arith, w.count, w.end, ap length w.split, length-append w.sent w.left)) in
    let place : w.sent ++ w.left ≡ request.buf = sym w.split ∙ sym w.whole in
    let run'' =
      ap
        (λ l. try_write l request.size (request.capacity - request.size) n (clear_irq_of true uart))
        (sym place)
      ∙ ap
          (λ k.
            try_write (w.sent ++ w.left) k (request.capacity - request.size) n
              (clear_irq_of true uart))
          (sym w.count)
      ∙ run' in
    let (u, done, line, mask) = handle_irq-write n request uart (length more) _ w.writes run'' in
    (
      (record request { size = request.size + length more }, u),
      done,
      record {
        sent = w.sent ++ more;
        left = rest;
        writes = w.writes;
        whole = w.whole;
        split =
            w.split ∙ ap (λ (l : List ℕ). w.sent ++ l) split' ∙ sym (append_assoc w.sent more rest);
        end = w.end;
        count = omega (arith, length-append w.sent more, w.count);
        most = ground (arith, count', w.most, w.end);
        shown =
            line
            ∙ ap (λ (l : List ℕ). l ++ printed more) w.shown
            ∙ append_assoc before (printed w.sent) (printed more)
            ∙ ap (λ (l : List ℕ). before ++ l) (sym (printed-append w.sent more));
        on = λ lt. ap (λ k. has k (irq_bit true)) (mask lt) ∙ w.on (omega arith);
      },
    )

most_more : (a b c d : ℕ) → c ≡ least a b → a ≤ c → c ≡ least a (b + d)
unfolding least
most_more a b c d e le = ground arith

-- The state after an event that changes nothing of the request.
waiting :
    (before message : List ℕ) (room n : ℕ) (request : UartRequest) (uart : Registers)
    (fifo : List ℕ)
    → WrittenSoFar before message room (request, uart)
    → request.size ≡ least (length message) (room + n)
    → WrittenSoFar before message (room + n) (request, record uart { fifo = fifo })
waiting before message room n request uart fifo w most = record {
  sent = w.sent;
  left = w.left;
  writes = w.writes;
  whole = w.whole;
  split = w.split;
  end = w.end;
  count = w.count;
  most = most;
  shown = w.shown;
  on = w.on;
}

masked_full :
    (before message : List ℕ) (room : ℕ) (request : UartRequest) (uart : Registers)
    → WrittenSoFar before message room (request, uart)
    → has uart.imsc (irq_bit true) ≡ false
    → length message ≤ request.size
masked_full before message room request uart w off =
    elim (Bool-cases (ltb request.size request.capacity)) [
      | inl less ↦ let on = w.on (ground (arith, less)) in absurd cc
      | inr more ↦ omega (arith, w.end, ltb→le request.size request.capacity more)
    ]

rooms_add :
    (room : ℕ) (event : Event) (events : List Event)
    → room + rooms (event ∷ []) + rooms events ≡ room + rooms (event ∷ events)
rooms_add room (arrive ch) events = omega arith
rooms_add room (interrupt n) events = omega arith

pub with_bit-has : (i w : ℕ) → has (with_bit i w) i ≡ true
unfolding with_bit
with_bit-has i w = elim (Bool-cases (has w i)) [
  | inl on ↦ rw (on, on) refl
  | inr off ↦ rw (off, has-add i i w off) (ground arith)
]

-- Each event keeps a write request on its way.
step-WrittenSoFar :
    (before message : List ℕ) (room : ℕ) (event : Event) (s : UartRequest × Registers)
    → WrittenSoFar before message room s
    → (t : UartRequest × Registers) × (step event s ≡ some t)
      × WrittenSoFar before message (room + rooms (event ∷ [])) t
unfolding step least
step-WrittenSoFar before message room (arrive ch) (request, uart) w = (
  (request, record uart { fifo = uart.fifo ++ (ch ∷ []) }),
  refl,
  waiting before message room 0 request uart _ w (ground (arith, w.most)),
)
step-WrittenSoFar before message room (interrupt n) (request, uart) w =
    elim (Bool-cases (has uart.imsc (irq_bit request.is_write_request))) [
      | inl on ↦
          let (t, done, w') = interrupted-WrittenSoFar before message room n request uart w in
          let same : room + n ≡ room + (n + 0) = omega arith in
          (t, rw on done, subst (λ k. WrittenSoFar before message k t) same w')
      | inr off ↦
          let full : length message ≤ request.size =
            masked_full before message room request uart w
              (ap (λ b. has uart.imsc (irq_bit b)) (sym w.writes) ∙ off) in
          (
            (request, uart),
            rw off refl,
            waiting before message room (n + 0) request uart uart.fifo w
                (most_more (length message) room request.size (n + 0) w.most full),
          )
    ]

-- So do any events.
run-WrittenSoFar :
    (before message : List ℕ) (events : List Event) (room : ℕ) (s : UartRequest × Registers)
    → WrittenSoFar before message room s
    → (t : UartRequest × Registers) × (run events s ≡ some t)
      × WrittenSoFar before message (room + rooms events) t
unfolding run
run-WrittenSoFar before message [] room s w = (
  s,
  refl,
  let same : room ≡ room + 0 = omega arith in subst (λ k. WrittenSoFar before message k s) same w,
)
run-WrittenSoFar before message (event ∷ events) room s w =
    let (t, first, w') = step-WrittenSoFar before message room event s w in
    let (u, rest, w'') = run-WrittenSoFar before message events (room + rooms (event ∷ [])) t w' in
    (
      u,
      rw first rest,
      subst (λ k. WrittenSoFar before message k u) (rooms_add room event events) w'',
    )

-- A write of the whole buffer on a free UART never faults, whatever the events: the characters of
-- the buffer come on the line in order, behind what was there, with a carriage return after each
-- newline; as many of them as the interrupts had room for.
pub start-WrittenSoFar :
    (message : List ℕ) (events : List Event) (previous : UartRequest) (uart : Registers)
    → is_finished previous ≡ true
    → (t : UartRequest × Registers) × ((start true message (length message) (previous, uart)
          >>= run events)
        ≡ some t)
      × WrittenSoFar uart.line message (rooms events) t
unfolding start construct set_irq_of enable_irq_of mask_disable least
start-WrittenSoFar message events previous uart free =
    let put = put_nothing uart in
    let w : WrittenSoFar uart.line message 0 (
      record { buf = message; size = 0; capacity = length message; is_write_request = true },
      enable_irq_of true uart,
    ) =
      record {
        sent = [];
        left = message;
        writes = refl;
        whole = refl;
        split = refl;
        end = refl;
        count = refl;
        most = ground arith;
        shown = ap (λ (u : Registers). u.line) put;
        on = λ lt. with_bit-has (irq_bit true) uart.imsc;
      } in
    let (t, done, w') = run-WrittenSoFar uart.line message events 0 _ w in
    let same : 0 + rooms events ≡ rooms events = omega arith in
    rw free (t, done, subst (λ k. WrittenSoFar uart.line message k t) same w')
