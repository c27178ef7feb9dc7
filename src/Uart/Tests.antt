-- ===== src/Uart/Tests.antt =====
-- Runs of the UART.
use pinyon.Prelude.{◌≡◌, refl, arith, true, false, some, [], ◌∷◌, ◌>>=◌, ◌++◌}
use pinyon.Uart.{Registers, UartRequest, arrive, interrupt, is_finished, start, run, step, call}
use pinyon.Uart.Calls.{call-write}
use pinyon.Uart.Writes.{printed}
use pinyon.Uart.WriteRuns.{WrittenSoFar, start-WrittenSoFar}
use pinyon.Uart.ReadRuns.{start-ReadSoFar}
use pinyon.Uart.Reads.{ReadSoFar, IsDrained}

abbrev idle : Registers
idle = record {
  line = [];
  fifo = [];
  gppud = 0;
  gppudclk0 = 0;
  ibrd = 1;
  fbrd = 39;
  lcrh = 112;
  cr = 769;
  ifls = 0;
  imsc = 0;
  icr = 2047;
}

abbrev no_request : UartRequest
no_request = record { buf = []; size = 0; capacity = 0; is_write_request = false }

-- "a", a newline, "b", with room for two characters and then for three.
start-WrittenSoFar_example :
    (t : UartRequest × Registers) × ((start true (97 ∷ 10 ∷ 98 ∷ []) 3 (no_request, idle)
        >>= run (interrupt 2 ∷ arrive 7 ∷ interrupt 3 ∷ []))
      ≡ some t)
    × WrittenSoFar [] (97 ∷ 10 ∷ 98 ∷ []) 5 t
unfolding is_finished
start-WrittenSoFar_example =
    start-WrittenSoFar (97 ∷ 10 ∷ 98 ∷ []) (interrupt 2 ∷ arrive 7 ∷ interrupt 3 ∷ []) no_request
      idle refl

start-ReadSoFar_example :
    (s : UartRequest × Registers) × (t : UartRequest × Registers) × ((start false
          (0 ∷ 0 ∷ 0 ∷ 0 ∷ [])
          4
          (no_request, idle)
        >>= run (arrive 97 ∷ interrupt 0 ∷ arrive 13 ∷ arrive 98 ∷ []))
      ≡ some s)
    × (step (interrupt 0) s ≡ some t)
    × ReadSoFar [] (97 ∷ 13 ∷ 98 ∷ []) 4 s
    × ReadSoFar [] (97 ∷ 13 ∷ 98 ∷ []) 4 t
    × IsDrained t
unfolding is_finished
start-ReadSoFar_example =
    start-ReadSoFar (0 ∷ 0 ∷ 0 ∷ 0 ∷ []) 4 0 (arrive 97 ∷ interrupt 0 ∷ arrive 13 ∷ arrive 98 ∷ [])
      no_request idle refl (omega arith)

call-write_example :
    (request : UartRequest) × (uart' : Registers) × (call true
        (97 ∷ 10 ∷ 98 ∷ [])
        3
        (interrupt 2 ∷ arrive 7 ∷ interrupt 3 ∷ [])
        (no_request, idle)
      ≡ some (3, request, uart'))
    × (uart'.line ≡ [] ++ printed (97 ∷ 10 ∷ 98 ∷ []))
unfolding is_finished
call-write_example =
    call-write (97 ∷ 10 ∷ 98 ∷ []) (interrupt 2 ∷ arrive 7 ∷ interrupt 3 ∷ []) no_request idle refl
      (omega arith)
