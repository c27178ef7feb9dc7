-- ===== src/Tasks/Time.antt =====
-- The processor time of the tasks, and the ends of a sleep.
use pinyon.Prelude.{
  ℕ, ◌+◌, ◌-◌, ◌*◌, ◌%◌, ◌≤◌, ◌<◌, ◌≡◌, refl, ◌≢◌, ◌↔◌, inl, inr, sym, ap, ◌∙◌, arith, Bool, true,
  false, ◌==◌, Bool-cases, if◌then◌else◌, Option, none, some, some-injective, All, All-get_elem?,
  length, get_elem?, set, length-set, get_elem?-total, get_elem?-set_self, get_elem?-set_ne,
}
use pinyon.Tasks.{
  Task, TaskManager, Switch, word, sys_hz, can_run, update_state, pick_next_task, start, charge,
  switch_to, schedule, sleep_waitable, cputime,
}
use pinyon.Tasks.Picks.{Picked, pick_next_task-Picked}

module _ {World : Type 0} (jiffies : World → ℕ) (w : World) where
  update_state-times :
      (t : Task World)
      → ((update_state w t).cpu_jiffies ≡ t.cpu_jiffies)
        × ((update_state w t).jiffies_when_scheduled ≡ t.jiffies_when_scheduled)
  unfolding update_state
  update_state-times t = (ground arith, ground arith)

  -- The reading that `cputime` makes of a task.
  abbrev reading : Bool → Task World → ℕ
  reading running t =
      if running
      then (t.cpu_jiffies + (jiffies w + word - t.jiffies_when_scheduled)) % word
      else t.cpu_jiffies

  cputime-found :
      (m : TaskManager World) (k : ℕ) (t : Task World)
      → get_elem? m.tasks k ≡ some t
      → cputime jiffies w m k ≡ some (reading (k == m.running_task_index) t)
  unfolding cputime
  cputime-found m k t e = rw e refl

  schedule-stays :
      (fuel : ℕ) (m m' : TaskManager World) (t : Task World)
      → pick_next_task fuel w m ≡ some (t, m')
      → (m'.running_task_index == m.running_task_index) ≡ true
      → schedule jiffies fuel w m ≡ some (none, m')
  unfolding schedule
  schedule-stays fuel m m' t e same = rw (e, same)

  schedule-switches :
      (fuel : ℕ) (m m' : TaskManager World) (t from to_run : Task World)
      → pick_next_task fuel w m ≡ some (t, m')
      → (m'.running_task_index == m.running_task_index) ≡ false
      → get_elem? m'.tasks m.running_task_index ≡ some from
      → get_elem? (set m'.tasks m.running_task_index (charge jiffies w from)) m'.running_task_index
        ≡ some to_run
      → schedule jiffies fuel w m
        ≡ some (
          some (record { saved = some m.running_task_index; resumed = m'.running_task_index }),
          record m' {
            tasks =
                set
                  (set m'.tasks m.running_task_index (charge jiffies w from))
                  m'.running_task_index
                  (start jiffies w to_run);
          },
        )
  unfolding schedule switch_to
  schedule-switches fuel m m' t from to_run e other f g = rw (e, other, f, g)

  -- A state after `schedule`, with the call of `task_switch` that it made.
  pub record Scheduled (m : TaskManager World) (switch : Option Switch) (m' : TaskManager World)
      : Type 0 where
    in_range : m'.running_task_index < length m.tasks
    length_kept : length m'.tasks ≡ length m.tasks
    switched : switch ≡ (
        if m'.running_task_index == m.running_task_index
        then none
        else some (record { saved = some m.running_task_index; resumed = m'.running_task_index }))
    runs :
        (t : Task World) × (get_elem? m'.tasks m'.running_task_index ≡ some t) × (can_run t ≡ true)
    times :
        (k : ℕ) (t : Task World)
        → get_elem? m.tasks k ≡ some t
        → cputime jiffies w m' k ≡ cputime jiffies w m k

  -- The 32-bit counters of a task.
  abbrev pub InWord : Task World → Type 0
  InWord t = (t.cpu_jiffies < word) × (t.jiffies_when_scheduled < word)

  module _ (m : TaskManager World) (words : All InWord m.tasks) (now : jiffies w < word)
      (inside : m.running_task_index < length m.tasks) (t : Task World) (m' : TaskManager World)
      (p : Picked w m t m') where
    same_times :
        (k : ℕ) (one : Task World)
        → get_elem? m.tasks k ≡ some one
        → (other : Task World) × (get_elem? m'.tasks k ≡ some other)
          × (other.cpu_jiffies ≡ one.cpu_jiffies)
          × (other.jiffies_when_scheduled ≡ one.jiffies_when_scheduled)
    same_times k one e = elim (p.updated k one e) [
      | inl same ↦ (one, same, refl, refl)
      | inr new ↦ let (cpu, since) = update_state-times one in (update_state w one, new, cpu, since)
    ]

    stays_times :
        m'.running_task_index ≡ m.running_task_index
        → (k : ℕ) (one : Task World) → get_elem? m.tasks k ≡ some one
        → cputime jiffies w m' k ≡ cputime jiffies w m k
    stays_times same k one e =
        let (other, f, cpu, since) = same_times k one e in
        rw (cputime-found m k one e, cputime-found m' k other f, cpu, since, same) refl

    module _ (from : Task World) (at_from : get_elem? m'.tasks m.running_task_index ≡ some from)
        (differ : (m'.running_task_index == m.running_task_index) ≡ false) where
      abbrev final : TaskManager World
      final = record m' {
        tasks =
            set (set m'.tasks m.running_task_index (charge jiffies w from)) m'.running_task_index
              (start jiffies w t);
      }

      apart : m.running_task_index ≢ m'.running_task_index
      apart e = ground (arith, e, differ)

      at_resumed : get_elem? final.tasks m'.running_task_index ≡ some (start jiffies w t)
      at_resumed =
          get_elem?-set_self (set m'.tasks m.running_task_index (charge jiffies w from))
            m'.running_task_index _
            (rw (length-set m'.tasks m.running_task_index (charge jiffies w from), p.kept)
              p.in_range)

      at_saved : get_elem? final.tasks m.running_task_index ≡ some (charge jiffies w from)
      at_saved =
          get_elem?-set_ne (set m'.tasks m.running_task_index (charge jiffies w from))
            m'.running_task_index m.running_task_index _ (λ e. apart (sym e))
          ∙ get_elem?-set_self m'.tasks m.running_task_index _ (rw p.kept inside)

      at_other :
          (k : ℕ)
          → m.running_task_index ≢ k
          → m'.running_task_index ≢ k
          → get_elem? final.tasks k ≡ get_elem? m'.tasks k
      at_other k a b =
          get_elem?-set_ne (set m'.tasks m.running_task_index (charge jiffies w from))
            m'.running_task_index k _ b
          ∙ get_elem?-set_ne m'.tasks m.running_task_index k _ a

      switch_times :
          (k : ℕ) (one : Task World)
          → get_elem? m.tasks k ≡ some one
          → cputime jiffies w final k ≡ cputime jiffies w m k
      unfolding start charge
      switch_times k one e =
          let (other, f, cpu, since) = same_times k one e in
          let (small, _) = All-get_elem? InWord m.tasks k one words e in
          elim (Bool-cases (k == m'.running_task_index)) [
            | inl here ↦ resumed (ground (arith, here)) other f cpu small
            | inr there ↦ elim (Bool-cases (k == m.running_task_index)) [
              | inl old ↦ saved (ground (arith, old)) other f cpu since
              | inr out ↦
                  let at : get_elem? final.tasks k ≡ some other =
                    at_other k (λ q. ground (arith, q, out)) (λ q. ground (arith, q, there)) ∙ f in
                  rw (cputime-found m k one e, cputime-found final k other at, there, out, cpu) refl
            ]
          ]
        where
          resumed :
              k ≡ m'.running_task_index
              → (other : Task World) → get_elem? m'.tasks k ≡ some other
              → other.cpu_jiffies ≡ one.cpu_jiffies
              → one.cpu_jiffies < word
              → cputime jiffies w final k ≡ cputime jiffies w m k
          resumed here other f cpu small =
              let same : t.cpu_jiffies ≡ other.cpu_jiffies =
                ap (λ (u : Task World). u.cpu_jiffies)
                  (some-injective t other
                    (sym p.picked ∙ ap (get_elem? m'.tasks) (sym here) ∙ f)) in
              let at : get_elem? final.tasks k ≡ some (start jiffies w t) =
                ap (get_elem? final.tasks) here ∙ at_resumed in
              let now_running : (k == m'.running_task_index) ≡ true = ground (arith, here) in
              let not_before : (k == m.running_task_index) ≡ false = ground (arith, here, differ) in
              let value : reading (k == m'.running_task_index) (start jiffies w t)
                  ≡ one.cpu_jiffies =
                rw now_running (omega (arith, same, cpu)) in
              cputime-found final k _ at
              ∙ ap some value
              ∙ sym (cputime-found m k one e ∙ rw not_before refl)

          saved :
              k ≡ m.running_task_index
              → (other : Task World) → get_elem? m'.tasks k ≡ some other
              → other.cpu_jiffies ≡ one.cpu_jiffies
              → other.jiffies_when_scheduled ≡ one.jiffies_when_scheduled
              → cputime jiffies w final k ≡ cputime jiffies w m k
          saved here other f cpu since =
              let same : from ≡ other =
                some-injective from other (sym at_from ∙ ap (get_elem? m'.tasks) (sym here) ∙ f) in
              let at : get_elem? final.tasks k ≡ some (charge jiffies w from) =
                ap (get_elem? final.tasks) here ∙ at_saved in
              let not_now : (k == m'.running_task_index) ≡ false = ground (arith, here, differ) in
              let before : (k == m.running_task_index) ≡ true = ground (arith, here) in
              let value : reading (k == m'.running_task_index) (charge jiffies w from)
                  ≡ reading true one =
                rw (not_now, same, cpu, since) refl in
              cputime-found final k _ at
              ∙ ap some value
              ∙ sym (cputime-found m k one e ∙ rw before refl)

  start-can_run : (t : Task World) → can_run (start jiffies w t) ≡ true
  unfolding start can_run
  start-can_run t = refl

  -- With a task that can run, `schedule` ends and the running task can run. It calls `task_switch` just
  -- when the running task changes. The time that `cputime` shows of a task is the same before and after:
  -- the task switched from is charged what it ran, and the one switched to starts at this jiffy.
  pub schedule-Scheduled :
      (m : TaskManager World) (j : ℕ) (target : Task World)
      → m.running_task_index < length m.tasks
      → All InWord m.tasks
      → jiffies w < word
      → get_elem? m.tasks j ≡ some target
      → can_run (update_state w target) ≡ true
      → (switch : Option Switch) × (m' : TaskManager World) × (schedule jiffies (length m.tasks) w m
          ≡ some (switch, m'))
        × Scheduled m switch m'
  schedule-Scheduled m j target inside words now e ready =
      let (t, m', run, p) = pick_next_task-Picked w m j target inside e ready in
      elim (Bool-cases (m'.running_task_index == m.running_task_index)) [
        | inl same ↦
            let same' : m'.running_task_index ≡ m.running_task_index = ground (arith, same) in
            (
              none,
              m',
              schedule-stays (length m.tasks) m m' t run same,
              record {
                in_range = p.in_range;
                length_kept = p.kept;
                switched = rw same refl;
                runs = (t, p.picked, p.ready);
                times = stays_times m words now inside t m' p same';
              },
            )
        | inr differ ↦
            let (from, at_from) =
              get_elem?-total m'.tasks m.running_task_index (rw p.kept inside) in
            let ne = apart m words now inside t m' p from at_from differ in
            let to_run =
              get_elem?-set_ne m'.tasks m.running_task_index m'.running_task_index
                (charge jiffies w from) ne
              ∙ p.picked in
            (
              some (record { saved = some m.running_task_index; resumed = m'.running_task_index }),
              final m words now inside t m' p from at_from differ,
              schedule-switches (length m.tasks) m m' t from t run differ at_from to_run,
              record {
                in_range = p.in_range;
                length_kept =
                    length-set (set m'.tasks m.running_task_index (charge jiffies w from))
                      m'.running_task_index _
                    ∙ length-set m'.tasks m.running_task_index _
                    ∙ p.kept;
                switched = rw differ refl;
                runs = (
                  start jiffies w t,
                  at_resumed m words now inside t m' p from at_from differ,
                  start-can_run t,
                );
                times = switch_times m words now inside t m' p from at_from differ;
              },
            )
      ]

-- A sleep of some seconds that does not run past 32 bits of jiffies is over just from its last jiffy on.
pub sleep_waitable_iff :
    {World : Type 0} (jiffies : World → ℕ) (w later : World) (secs : ℕ)
    → jiffies w + secs * sys_hz < word
    → (sleep_waitable jiffies w secs later ≡ true) ↔ (jiffies w + secs * sys_hz ≤ jiffies later)
unfolding sleep_waitable
sleep_waitable_iff jiffies w later secs small =
    (λ e. ground (arith, e, small), λ h. ground (arith, h, small))
