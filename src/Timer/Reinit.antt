-- ===== src/Timer/Reinit.antt =====
-- The timer is set ahead of the counter again, after whole periods.
use pinyon.Prelude.{
  ℕ, zero, suc, ◌+◌, ◌*◌, ◌%◌, ◌≤◌, ◌<◌, ◌≡◌, refl, ◌⊎◌, inl, inr, sym, subst, ap, ◌∙◌, arith, true,
  ltb, Bool-cases, ltb→lt, ltb→le, if◌then◌else◌, some,
}
use pinyon.Timer.{
  word, SystemTimer, handled, catch_up, with_match_flag, reinit, matched, jiffies_since_last_match,
  handle_irq, jiffies, fallback_sys_hz_scaler,
}

-- The compare1 that the loop leaves: the first of the sums of the old one and whole periods that is
-- not below the counter as it was read for that sum, each sum against a reading of its own, from the
-- `first`-th on. It is less than a period above the highest reading if it moved.
pub record CaughtUp (reads : ℕ → ℕ) (highest counter_match first compare1 compare1' : ℕ)
    : Type 0 where
  pub rounds : ℕ
  pub periods : compare1' ≡ compare1 + rounds * counter_match
  pub ahead : reads (first + rounds) ≤ compare1'
  pub behind : (j : ℕ) → j < rounds → compare1 + j * counter_match < reads (first + j)
  pub near : (compare1' ≡ compare1) ⊎ (compare1' < highest + counter_match)

still_behind :
    (reads : ℕ → ℕ) (counter_match k compare1 rounds : ℕ)
    → compare1 < reads k
    → ((j : ℕ) → j < rounds → compare1 + counter_match + j * counter_match < reads (suc k + j))
    → (j : ℕ) → j < suc rounds
    → compare1 + j * counter_match < reads (k + j)
still_behind reads counter_match k compare1 rounds h rest zero less =
    let same : k ≡ k + 0 = omega arith in
    let start : compare1 + 0 * counter_match < reads k = omega (arith, h) in
    subst (λ n. compare1 + 0 * counter_match < reads n) same start
still_behind reads counter_match k compare1 rounds h rest (suc j) less =
    let same : suc k + j ≡ k + suc j = omega arith in
    let next = rest j (omega (arith, less)) in
    let sum : compare1 + suc j * counter_match ≡ compare1 + counter_match + j * counter_match =
      ground arith in
    rw (sum, sym same) next

catch_up-more :
    (reads : ℕ → ℕ) (counter_match fuel k compare1 next : ℕ)
    → ltb compare1 (reads k) ≡ true
    → (compare1 + counter_match) % word ≡ next
    → catch_up (suc fuel) reads counter_match k compare1
      ≡ catch_up fuel reads counter_match (suc k) next
unfolding catch_up
catch_up-more reads counter_match fuel k compare1 next more sum = rw (more, sum) refl

module _ (reads : ℕ → ℕ) (highest counter_match : ℕ) (bounded : (k : ℕ) → reads k ≤ highest)
    (pos : 0 < counter_match) (room : highest + counter_match < word) where
  catch_up-CaughtUp :
      (fuel k compare1 : ℕ)
      → 0 < fuel
      → highest < fuel + compare1
      → (compare1' : ℕ) × (k' : ℕ) × (catch_up fuel reads counter_match k compare1
          ≡ some (compare1', k'))
        × CaughtUp reads highest counter_match k compare1 compare1'
  unfolding catch_up
  catch_up-CaughtUp zero k compare1 some_fuel enough = absurd (omega (arith, some_fuel))
  catch_up-CaughtUp (suc fuel) k compare1 some_fuel enough =
      elim (Bool-cases (ltb compare1 (reads k))) [
        | inr stop ↦ (
          compare1,
          suc k,
          rw stop refl,
          record {
            rounds = 0;
            periods = omega arith;
            ahead =
                let same : k ≡ k + 0 = omega arith in
                subst (λ n. reads n ≤ compare1) same (ltb→le compare1 (reads k) stop);
            behind = λ j less. absurd (omega (arith, less));
            near = inl refl;
          },
        )
        | inl more ↦
            let below = ltb→lt compare1 (reads k) more in
            let high = bounded k in
            let sum : (compare1 + counter_match) % word ≡ compare1 + counter_match =
              omega (arith, below, high) in
            let (compare1', k', run, up) =
              catch_up-CaughtUp fuel (suc k) (compare1 + counter_match) (omega (arith, below, high))
                (omega arith) in
            (
              compare1',
              k',
              catch_up-more reads counter_match fuel k compare1 (compare1 + counter_match) more sum
                  ∙ run,
              record {
                rounds = suc up.rounds;
                periods = ground (arith, up.periods);
                ahead =
                    let same : suc k + up.rounds ≡ k + suc up.rounds = omega arith in
                    subst (λ n. reads n ≤ compare1') same up.ahead;
                behind = still_behind reads counter_match k compare1 up.rounds below up.behind;
                near = inr (
                    moved (compare1 + counter_match) compare1' (omega (arith, below, high))
                      up.near);
              },
            )
      ]
    where
      moved :
          (next compare1' : ℕ)
          → next < highest + counter_match
          → (compare1' ≡ next) ⊎ (compare1' < highest + counter_match)
          → compare1' < highest + counter_match
      moved next compare1' h (inl e) = omega (arith, h, e)
      moved next compare1' h (inr l) = l

handle_irq-done :
    (fuel : ℕ) (reads : ℕ → ℕ) (t t' : SystemTimer)
    → matched t ≡ true
    → reinit fuel reads 1 t ≡ some t'
    → handle_irq fuel reads t
      ≡ some (
          handled (record t' {
            jiffies_since_boot =
                (t'.jiffies_since_boot + jiffies_since_last_match (reads 0) t) % word;
          }))
unfolding handle_irq
handle_irq-done fuel reads t t' m e = rw (m, e) refl

reinit-done :
    (fuel : ℕ) (reads : ℕ → ℕ) (t : SystemTimer) (compare1' k' : ℕ)
    → catch_up fuel reads t.timer_counter_match 1 t.compare1 ≡ some (compare1', k')
    → (t' : SystemTimer) × (reinit fuel reads 1 t ≡ some t')
      × (t'.compare1 ≡ compare1')
      × (t'.jiffies_since_boot ≡ t.jiffies_since_boot)
unfolding reinit
reinit-done fuel reads t compare1' k' e = (
  record t {
    control = with_match_flag t.control;
    compare1 = compare1';
    compare3 = (reads k' + t.timer_counter_match * fallback_sys_hz_scaler % word) % word;
  },
  rw e refl,
  refl,
  refl,
)

-- While no reading of the counter is above `highest`, which with one more period stays in the word,
-- and the period is not 0, `handle_irq` on a matched timer ends. The next match is the first time,
-- whole periods after the last match, that is not before the counter as it was read for that time,
-- each in its turn after the reading for the jiffies; and if it moved it is less than a period above
-- `highest`. The jiffies go on by 1, or by 32 if the fallback match had passed at the first reading.
pub handle_irq-CaughtUp :
    (reads : ℕ → ℕ) (highest : ℕ) (t : SystemTimer)
    → ((k : ℕ) → reads k ≤ highest)
    → 0 < t.timer_counter_match
    → highest + t.timer_counter_match < word
    → matched t ≡ true
    → (t' : SystemTimer) × (handle_irq (suc highest) reads t ≡ some (handled t'))
      × CaughtUp reads highest t.timer_counter_match 1 t.compare1 t'.compare1
      × (jiffies t'
          ≡ (jiffies t + (if ltb t.compare3 (reads 0) then fallback_sys_hz_scaler else 1)) % word)
unfolding jiffies jiffies_since_last_match
handle_irq-CaughtUp reads highest t bounded pos room m =
    let (compare1', k', run, up) =
      catch_up-CaughtUp reads highest t.timer_counter_match bounded pos room (suc highest) 1
        t.compare1 (omega arith) (omega arith) in
    let (t', done, e, boot) = reinit-done (suc highest) reads t compare1' k' run in
    (
      _,
      handle_irq-done (suc highest) reads t t' m done,
      subst (CaughtUp reads highest t.timer_counter_match 1 t.compare1) (sym e) up,
      ap (λ b. (b + (if ltb t.compare3 (reads 0) then fallback_sys_hz_scaler else 1)) % word) boot,
    )
