-- ===== src/Timer/Tests.antt =====
-- The timer 300000 counts after its match at 125000.
use pinyon.Prelude.{ℕ, ◌+◌, ◌%◌, ◌≡◌, refl, arith, true, ltb, if◌then◌else◌, some}
use pinyon.Timer.{
  word, SystemTimer, handled, catch_up, reinit, matched, handle_irq, jiffies,
  jiffies_since_last_match, with_match_flag, fallback_sys_hz_scaler,
}
use pinyon.Timer.Reinit.{CaughtUp, handle_irq-CaughtUp}

abbrev late : SystemTimer
late = record {
  control = 2;
  compare1 = 125000;
  compare3 = 4000000;
  timer_counter_match = 125000;
  jiffies_since_boot = 7;
}

abbrev counter : ℕ → ℕ
counter k = 300000

late-matched : matched late ≡ true
unfolding matched
late-matched = refl

handle_run :
    handle_irq 5 counter late
    ≡ some (handled (record late { compare1 = 375000; compare3 = 4300000; jiffies_since_boot = 8 }))
unfolding handle_irq matched reinit catch_up with_match_flag jiffies_since_last_match
handle_run = refl

handle_irq-CaughtUp_example :
    (t' : SystemTimer) × (handle_irq 300001 counter late ≡ some (handled t'))
    × CaughtUp counter 300000 125000 1 125000 t'.compare1
    × (jiffies t'
        ≡ (jiffies late + (if ltb 4000000 (counter 0) then fallback_sys_hz_scaler else 1)) % word)
handle_irq-CaughtUp_example =
    handle_irq-CaughtUp counter 300000 late (λ k. omega arith) (omega arith) (omega arith)
      late-matched
