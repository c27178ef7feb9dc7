-- ===== src/Timer.antt =====
-- The system timer of kernel/device/bcm2835/timer.cpp and timer.hpp. The counter `lower_bits` runs on
-- between two reads: `reads k` is what the k-th read of a call gives. The register `control` keeps
-- what is written to it; that the device clears the match flags then is not modelled.
pub mod Reinit
mod Tests
use pinyon.Prelude.{
  ℕ, zero, suc, ◌+◌, ◌*◌, ◌/◌, ◌%◌, ◌^◌, Bool, ltb, ◌==◌, if◌then◌else◌, Option, none, some, ◌>>=◌,
}

abbrev pub word : ℕ
word = 2 ^ 32

-- TIMER_HZ and 1 << SYS_HZ_BITS
abbrev pub timer_hz : ℕ
timer_hz = 1000000

abbrev pub sys_hz : ℕ
sys_hz = 8

abbrev pub fallback_sys_hz_scaler : ℕ
fallback_sys_hz_scaler = 32

-- The registers that are written, and the two static counters of timer.cpp.
pub record SystemTimer : Type 0 where
  pub control : ℕ
  pub compare1 : ℕ
  pub compare3 : ℕ
  pub timer_counter_match : ℕ
  pub jiffies_since_boot : ℕ

-- `control |= (1 << 1)`
unfoldable pub with_match_flag : ℕ → ℕ
with_match_flag control = if control / 2 % 2 == 1 then control else control + 2

unfoldable pub init : (reads : ℕ → ℕ) → SystemTimer → SystemTimer
init reads t =
    let counter_match = timer_hz / sys_hz in
    record {
      control = with_match_flag t.control;
      compare1 = (reads 0 + counter_match) % word;
      compare3 = (reads 1 + counter_match * fallback_sys_hz_scaler % word) % word;
      timer_counter_match = counter_match;
      jiffies_since_boot = 0;
    }

-- `while (compare1 < lower_bits) compare1 += timer_counter_match;` from the k-th read on, on fuel. The
-- result is the new compare1 and the number of the next read.
unfoldable pub catch_up : (fuel : ℕ) (reads : ℕ → ℕ) (counter_match k compare1 : ℕ) → Option (ℕ × ℕ)
catch_up zero reads counter_match k compare1 = none
catch_up (suc fuel) reads counter_match k compare1 =
    let rest = catch_up fuel reads counter_match (suc k) ((compare1 + counter_match) % word) in
    if ltb compare1 (reads k) then rest else some (compare1, suc k)

unfoldable pub reinit : (fuel : ℕ) (reads : ℕ → ℕ) (k : ℕ) → SystemTimer → Option SystemTimer
reinit fuel reads k t = do
  (compare1, k') ← catch_up fuel reads t.timer_counter_match k t.compare1
  some (record t {
    control = with_match_flag t.control;
    compare1 = compare1;
    compare3 = (reads k' + t.timer_counter_match * fallback_sys_hz_scaler % word) % word;
  })

unfoldable pub jiffies_since_last_match : (lower_bits : ℕ) → SystemTimer → ℕ
jiffies_since_last_match lower_bits t =
    if ltb t.compare3 lower_bits then fallback_sys_hz_scaler else 1

unfoldable pub matched : SystemTimer → Bool
matched t = ltb 0 (t.control % 4)

pub data Handled : Type 0 where
  panicked : Handled
  handled : SystemTimer → Handled

-- `none` is the loop of `reinit` that has not ended.
unfoldable pub handle_irq : (fuel : ℕ) (reads : ℕ → ℕ) → SystemTimer → Option Handled
handle_irq fuel reads t =
    let jif_diff = jiffies_since_last_match (reads 0) t in
    let body : Option Handled = reinit fuel reads 1 t >>= λ t'.
    some (handled (record t' { jiffies_since_boot = (t'.jiffies_since_boot + jif_diff) % word })) in
    if matched t then body else some panicked

unfoldable pub jiffies : SystemTimer → ℕ
jiffies t = t.jiffies_since_boot
