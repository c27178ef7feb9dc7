-- ===== src/Uart.antt =====
-- The UART of kernel/device/pl011/uart.cpp and uart.hpp: its registers and the request in flight. The
-- transmit line is the list of the characters written to DR. The receive FIFO is the list of the
-- characters not yet read from DR, and RXFE says that it is empty. `room` is how often TXFF is read as
-- clear before it is set. Waiting for room in `poll_put` ends. A character is its code.
pub mod Reads
pub mod ReadRuns
pub mod Calls
pub mod Writes
pub mod WriteRuns
mod Tests
use pinyon.Prelude.{
  ℕ, zero, suc, ◌+◌, ◌-◌, ◌*◌, ◌/◌, ◌%◌, ◌^◌, Bool, true, false, ◌||◌, ltb, ◌==◌, if◌then◌else◌,
  Option, none, some, ◌>>=◌, List, [], ◌∷◌, ◌++◌, set, get_elem?, length,
}
use pinyon.BitMap.{has}

pub record Registers : Type 0 where
  pub line : List ℕ
  pub fifo : List ℕ
  pub gppud : ℕ
  pub gppudclk0 : ℕ
  pub ibrd : ℕ
  pub fbrd : ℕ
  pub lcrh : ℕ
  pub cr : ℕ
  pub ifls : ℕ
  pub imsc : ℕ
  pub icr : ℕ

-- UART_LCRH_FEN to UART_ICR_TXIC
abbrev rxim : ℕ
rxim = 4

abbrev txim : ℕ
txim = 5

abbrev newline : ℕ
newline = 10

abbrev carriage_return : ℕ
carriage_return = 13

unfoldable pub poll_put : ℕ → Registers → Registers
poll_put ch uart = record uart { line = uart.line ++ (ch ∷ []) }

-- `poll_write` with a length: `none` reads past the end of the message.
unfoldable pub poll_write : (message : List ℕ) (bytes : ℕ) → Registers → Option Registers
poll_write message zero uart = some uart
poll_write [] (suc bytes) uart = none
poll_write (ch ∷ message) (suc bytes) uart = poll_write message bytes (poll_put ch uart)

-- `poll_write` of a string, up to its NUL.
unfoldable pub poll_write_string : List ℕ → Registers → Option Registers
poll_write_string [] uart = none
poll_write_string (ch ∷ message) uart =
    let rest = poll_write_string message (poll_put ch uart) in if ch == 0 then some uart else rest

-- `compute_baud_divisor_register_values`, of which the fraction is exact here.
unfoldable pub compute_baud_divisor_register_values : (uart_clock_speed_hz baud_rate : ℕ) → ℕ × ℕ
compute_baud_divisor_register_values uart_clock_speed_hz baud_rate =
    let divisor = 16 * baud_rate in
    (uart_clock_speed_hz / divisor, uart_clock_speed_hz % divisor * 63 / divisor)

unfoldable pub reset : Registers → Registers
reset uart =
    let stopped : Registers = record uart { cr = 0 } in
    let gpio₀ : Registers = record stopped { gppud = 0 } in
    let gpio₁ : Registers = record gpio₀ { gppudclk0 = 2 ^ 14 + 2 ^ 15 } in
    let gpio₂ : Registers = record gpio₁ { gppudclk0 = 0 } in
    let cleared : Registers = record gpio₂ { icr = 2047 } in
    let (integer_value, fractional_value) = compute_baud_divisor_register_values 3000000 115200 in
    let paced : Registers = record cleared { ibrd = integer_value; fbrd = fractional_value } in
    let framed : Registers = record paced { lcrh = 2 ^ 4 + 2 ^ 5 + 2 ^ 6 } in
    let masked : Registers = record framed { imsc = 0; ifls = 0 } in
    record masked { cr = 2 ^ 0 + 2 ^ 8 + 2 ^ 9 }

-- `word | (1 << index)` and `word & ~(1 << index)`
unfoldable pub with_bit : ℕ → ℕ → ℕ
with_bit index word = if has word index then word else word + 2 ^ index

unfoldable pub without_bit : ℕ → ℕ → ℕ
without_bit index word = if has word index then word - 2 ^ index else word

-- The mask's `disable` sets the bit of IMSC and its `enable` clears it.
unfoldable pub mask_disable : ℕ → Registers → Registers
mask_disable offset uart = record uart { imsc = with_bit offset uart.imsc }

unfoldable pub mask_enable : ℕ → Registers → Registers
mask_enable offset uart = record uart { imsc = without_bit offset uart.imsc }

-- The bits of IMSC and ICR for a direction.
unfoldable pub irq_bit : (is_write_request : Bool) → ℕ
irq_bit is_write_request = if is_write_request then txim else rxim

unfoldable pub enable_irq_of : (is_write_request : Bool) → Registers → Registers
enable_irq_of is_write_request uart = mask_disable (irq_bit is_write_request) uart

unfoldable pub disable_irq_of : (is_write_request : Bool) → Registers → Registers
disable_irq_of is_write_request uart = mask_enable (irq_bit is_write_request) uart

unfoldable pub clear_irq_of : (is_write_request : Bool) → Registers → Registers
clear_irq_of is_write_request uart = record uart {
  icr = without_bit (irq_bit is_write_request) uart.icr;
}

-- pine::overwrite_bit_range
unfoldable pub overwrite_bit_range : (dest value start_inclusive end_inclusive : ℕ) → ℕ
overwrite_bit_range dest value start_inclusive end_inclusive =
    let field = λ (x : ℕ).
      x / 2 ^ start_inclusive % 2 ^ (end_inclusive - start_inclusive) * 2 ^ start_inclusive in
    dest - field dest + field value

-- The value for IFLS that `set_read_irq` and `set_write_irq` compute.
unfoldable pub selected_level : (is_write_request : Bool) → ℕ → Registers → ℕ
selected_level is_write_request amount uart =
    let fifo_select_bits = (if ltb amount 8 then amount else 8) / 2 in
    if is_write_request
    then overwrite_bit_range uart.ifls fifo_select_bits 0 2
    else overwrite_bit_range uart.ifls fifo_select_bits 3 5

-- `set_read_irq` and `set_write_irq`: the value is dropped.
unfoldable pub set_irq_of : (is_write_request : Bool) → ℕ → Registers → Registers
set_irq_of is_write_request amount uart =
    let level = selected_level is_write_request amount uart in uart

-- `try_read` into a buffer from an offset, with at most `bufsize` characters: how many were stored and
-- whether a line's end stopped it. `none` writes past the buffer.
unfoldable pub try_read :
    (buf : List ℕ) (offset bufsize : ℕ) (fifo : List ℕ)
    → Registers
    → Option ((ℕ × Bool) × List ℕ × Registers)
try_read buf offset zero fifo uart = some ((0, false), buf, record uart { fifo = fifo })
try_read buf offset (suc bufsize) [] uart = some ((0, false), buf, record uart { fifo = [] })
try_read buf offset (suc bufsize) (ch ∷ fifo) uart =
    let stored : Option ((ℕ × Bool) × List ℕ × Registers) =
      try_read (set buf offset ch) (offset + 1) bufsize fifo (poll_put ch uart)
      >>= λ ((n, stopped), buf', uart'). some ((n + 1, stopped), buf', uart') in
    if ch == newline || ch == carriage_return
    then some ((0, true), buf, record (poll_put newline uart) { fifo = fifo })
    else if ltb offset (length buf)
    then stored
    else none

-- `try_write` from an offset of a buffer; `none` reads past it.
unfoldable pub try_write :
    (buf : List ℕ) (offset bufsize room : ℕ) → Registers → Option (ℕ × Registers)
try_write buf offset zero room uart = some (0, uart)
try_write buf offset (suc bufsize) zero uart = some (0, uart)
try_write buf offset (suc bufsize) (suc room) uart = do
  ch ← get_elem? buf offset
  let put = poll_put ch uart
  (n, uart') ←
      try_write buf (offset + 1) bufsize room
        (if ch == newline then poll_put carriage_return put else put)
  some (n + 1, uart')

pub record UartRequest : Type 0 where
  pub buf : List ℕ
  pub size : ℕ
  pub capacity : ℕ
  pub is_write_request : Bool

unfoldable pub is_finished : UartRequest → Bool
is_finished request = request.size == request.capacity

unfoldable pub construct :
    (buf : List ℕ) (size : ℕ) (is_write_request : Bool) → Registers → UartRequest × Registers
construct buf size is_write_request uart = (
  record { buf = buf; size = 0; capacity = size; is_write_request = is_write_request },
  set_irq_of is_write_request (size - 0) uart,
)

unfoldable pub fill_from_uart :
    (room : ℕ) → UartRequest → Registers → Option (UartRequest × Registers)
fill_from_uart room request uart =
    let amount_originally_left = request.capacity - request.size in
    if request.is_write_request
    then (do
      (n, uart') ← try_write request.buf request.size amount_originally_left room uart
      some (record request { size = request.size + n }, uart'))
    else (do
      ((n, stopped), buf', uart') ←
          try_read request.buf request.size amount_originally_left uart.fifo uart
      let size' = request.size + n
      some (
        record request {
          buf = buf';
          size = size';
          capacity = if stopped then size' else request.capacity;
        },
        uart',
      ))

unfoldable pub handle_irq : (room : ℕ) → UartRequest → Registers → Option (UartRequest × Registers)
handle_irq room request uart = do
  (request', uart') ← fill_from_uart room request (clear_irq_of request.is_write_request uart)
  some (
    request',
    if request'.size == request'.capacity
        then disable_irq_of request'.is_write_request uart'
        else set_irq_of request'.is_write_request (request'.capacity - request'.size) uart',
  )

-- What happens while a request is in flight: a character arrives, or an interrupt with room for some
-- characters.
pub data Event : Type 0 where
  arrive : ℕ → Event
  interrupt : ℕ → Event

-- An interrupt comes through if IMSC has its bit.
unfoldable pub step : Event → UartRequest × Registers → Option (UartRequest × Registers)
step (arrive ch) (request, uart) = some (request, record uart { fifo = uart.fifo ++ (ch ∷ []) })
step (interrupt room) (request, uart) =
    let handled = handle_irq room request uart in
    if has uart.imsc (irq_bit request.is_write_request) then handled else some (request, uart)

unfoldable pub run : List Event → UartRequest × Registers → Option (UartRequest × Registers)
run [] s = some s
run (event ∷ events) s = step event s >>= run events

-- `UARTFile::read` and `UARTFile::write` up to the wait: `none` is the panic while a request is in
-- flight.
unfoldable pub start :
    (is_write_request : Bool) (buf : List ℕ) (size : ℕ)
    → UartRequest × Registers
    → Option (UartRequest × Registers)
start is_write_request buf size (previous, uart) =
    let (request, uart') = construct buf size is_write_request uart in
    if is_finished previous
    then some (request, enable_irq_of request.is_write_request uart')
    else none

-- The whole call with what happens meanwhile: the count, or `none` for a panic.
unfoldable pub call :
    (is_write_request : Bool) (buf : List ℕ) (size : ℕ) (events : List Event)
    → UartRequest × Registers
    → Option (ℕ × UartRequest × Registers)
call is_write_request buf size events s = do
  s' ← start is_write_request buf size s
  (request, uart) ← run events s'
  if is_finished request then some (request.size, request, uart) else none
