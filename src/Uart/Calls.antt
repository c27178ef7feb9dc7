-- ===== src/Uart/Calls.antt =====
-- A write call on the UART returns.
use pinyon.Prelude.{
  ℕ, ◌≤◌, ◌≡◌, refl, sym, ap, ◌∙◌, inl, inr, arith, Bool, true, none, some, ◌>>=◌, List, [], ◌∷◌,
  ◌++◌, length, length-append, Option-cases,
}
use mathlib.Core.List.{append-nil}
use pinyon.Uart.{Registers, UartRequest, Event, is_finished, start, run, call}
use pinyon.Uart.Writes.{printed, least}
use pinyon.Uart.WriteRuns.{rooms, start-WrittenSoFar}

no_more : (xs : List ℕ) → length xs ≡ 0 → xs ≡ []
no_more [] e = refl
no_more (x ∷ xs) e = absurd (omega arith)

call-run :
    (is_write_request : Bool) (buf : List ℕ) (size : ℕ) (events : List Event)
    (s t : UartRequest × Registers)
    → (start is_write_request buf size s >>= run events) ≡ some t
    → is_finished t.0 ≡ true
    → call is_write_request buf size events s ≡ some (t.0.size, t.0, t.1)
unfolding call
call-run is_write_request buf size events s t done all =
    elim (Option-cases (start is_write_request buf size s)) [
      | inl broke ↦
          absurd (let f : none ≡ some t = sym (ap (λ o. o >>= run events) broke) ∙ done in cc)
      | inr (s', begun) ↦
          let rest : run events s' ≡ some t = sym (ap (λ o. o >>= run events) begun) ∙ done in
          rw (begun, rest, all) refl
    ]

-- A write of the whole buffer on a free UART returns the buffer's length, once the interrupts had
-- room for as many characters, and then the line has them all.
pub call-write :
    (message : List ℕ) (events : List Event) (previous : UartRequest) (uart : Registers)
    → is_finished previous ≡ true
    → length message ≤ rooms events
    → (request : UartRequest) × (uart' : Registers) × (call true message
          (length message)
          events
          (previous, uart)
        ≡ some (length message, request, uart'))
      × (uart'.line ≡ uart.line ++ printed message)
unfolding is_finished least
call-write message events previous uart free enough =
    let (t, done, w) = start-WrittenSoFar message events previous uart free in
    let all : t.0.size ≡ length message = ground (arith, w.most) in
    let fin : is_finished t.0 ≡ true = ground (arith, w.end, all) in
    let left : w.left ≡ [] =
      no_more w.left
        (omega (arith, ap length w.split, length-append w.sent w.left, w.count, all)) in
    let sent : message ≡ w.sent =
      w.split ∙ ap (λ (l : List ℕ). w.sent ++ l) left ∙ append-nil w.sent in
    (
      t.0,
      t.1,
      call-run true message (length message) events (previous, uart) t done fin
          ∙ ap (λ n. some (n, t.0, t.1)) all,
      w.shown ∙ ap (λ l. uart.line ++ printed l) (sym sent),
    )
