-- ===== src/Tasks/Picks.antt =====
-- Which task `pick_next_task` picks.
use pinyon.Prelude.{
  ℕ, zero, suc, ◌+◌, ◌-◌, ◌≤◌, ◌<◌, ◌≡◌, refl, ◌≢◌, ◌⊎◌, inl, inr, sym, ap, subst, ◌∙◌, arith, true,
  false, ltb, ◌==◌, ==_iff, Bool-cases, if◌then◌else◌, some, some-injective, List, length,
  get_elem?, set, length-set, get_elem?-lt, get_elem?-total, get_elem?-set_self, get_elem?-set_ne,
}
use pinyon.Tasks.{Task, TaskManager, next_index, can_run, update_state, pick_next_task}

-- How many steps the round takes from i to j, 1 for the next and the length for i itself.
abbrev pub ahead : (len i j : ℕ) → ℕ
ahead len i j = if ltb i j then j - i else j + len - i

ahead_next :
    (len i j : ℕ)
    → i < len
    → j < len
    → next_index len i ≢ j
    → ahead len i j ≡ suc (ahead len (next_index len i) j)
unfolding next_index
ahead_next len i j hi hj other = ground (arith, other)

ahead_same : (len i : ℕ) → i < len → ahead len i (next_index len i) ≡ 1
unfolding next_index
ahead_same len i h = ground arith

next_index-lt : (len i : ℕ) → i < len → next_index len i < len
unfolding next_index
next_index-lt len i h = ground arith

ahead_pos : (len i j : ℕ) → i < len → 0 < ahead len i j
ahead_pos len i j h = ground arith

ahead_lt : (len i j : ℕ) → i < len → j < len → i ≢ j → ahead len i j < len
ahead_lt len i j hi hj other = ground (arith, other)

module _ {World : Type 0} (w : World) where
  update_state-twice : (t : Task World) → update_state w (update_state w t) ≡ update_state w t
  unfolding update_state
  update_state-twice t = ground arith

  pick-found :
      (fuel : ℕ) (m : TaskManager World) (task : Task World)
      → get_elem? m.tasks (next_index (length m.tasks) m.running_task_index) ≡ some task
      → can_run (update_state w task) ≡ true
      → let i = next_index (length m.tasks) m.running_task_index in
        pick_next_task (suc fuel) w m
        ≡ some (
          update_state w task,
          record { tasks = set m.tasks i (update_state w task); running_task_index = i },
        )
  unfolding pick_next_task
  pick-found fuel m task e ready = rw (e, ready)

  pick-skip :
      (fuel : ℕ) (m : TaskManager World) (task : Task World)
      → get_elem? m.tasks (next_index (length m.tasks) m.running_task_index) ≡ some task
      → can_run (update_state w task) ≡ false
      → let i = next_index (length m.tasks) m.running_task_index in
        pick_next_task (suc fuel) w m
        ≡ pick_next_task fuel w
            (record { tasks = set m.tasks i (update_state w task); running_task_index = i })
  unfolding pick_next_task
  pick-skip fuel m task e unready = rw (e, unready)

  -- What `pick_next_task` picks: the first task of the round, from the one behind the running task on,
  -- that can run once its state is updated. The other tasks are at most updated.
  pub record Picked (m : TaskManager World) (t : Task World) (m' : TaskManager World) : Type 0 where
    pub in_range : m'.running_task_index < length m.tasks
    pub kept : length m'.tasks ≡ length m.tasks
    pub picked : get_elem? m'.tasks m'.running_task_index ≡ some t
    pub ready : can_run t ≡ true
    pub was :
        (task : Task World) × (get_elem? m.tasks m'.running_task_index ≡ some task)
        × (t ≡ update_state w task)
    pub updated :
        (k : ℕ) (task : Task World)
        → get_elem? m.tasks k ≡ some task
        → (get_elem? m'.tasks k ≡ some task) ⊎ (get_elem? m'.tasks k ≡ some (update_state w task))
    pub skipped :
        (k : ℕ) (task : Task World)
        → get_elem? m.tasks k ≡ some task
        → ahead (length m.tasks) m.running_task_index k
          < ahead (length m.tasks) m.running_task_index m'.running_task_index
        → can_run (update_state w task) ≡ false

  ==_ne : (a b : ℕ) → (a == b) ≡ false → a ≢ b
  ==_ne a b e = ground (arith, e)

  updated_at :
      (tasks : List (Task World)) (i k : ℕ) (at task : Task World)
      → get_elem? tasks i ≡ some at
      → get_elem? tasks k ≡ some task
      → (get_elem? (set tasks i (update_state w at)) k ≡ some task)
        ⊎ (get_elem? (set tasks i (update_state w at)) k ≡ some (update_state w task))
  updated_at tasks i k at task e f = elim (Bool-cases (i == k)) [
    | inl same ↦
        let same' : i ≡ k = (==_iff i k).0 same in
        let at_i = get_elem?-set_self tasks i (update_state w at) (get_elem?-lt tasks i at e) in
        inr cc
    | inr other ↦ inl (get_elem?-set_ne tasks i k _ (==_ne i k other) ∙ f)
  ]

  module _ (m : TaskManager World) (task : Task World)
      (inside : m.running_task_index < length m.tasks)
      (at : get_elem? m.tasks (next_index (length m.tasks) m.running_task_index) ≡ some task) where
    abbrev i : ℕ
    i = next_index (length m.tasks) m.running_task_index

    abbrev after : TaskManager World
    after = record { tasks = set m.tasks i (update_state w task); running_task_index = i }

    Picked-found : can_run (update_state w task) ≡ true → Picked m (update_state w task) after
    Picked-found ready = record {
      in_range = next_index-lt (length m.tasks) m.running_task_index inside;
      kept = length-set m.tasks i _;
      picked = get_elem?-set_self m.tasks i _ (get_elem?-lt m.tasks i task at);
      ready = ready;
      was = (task, at, refl);
      updated = λ k other e. updated_at m.tasks i k task other at e;
      skipped = λ k other e near.
          let first = ahead_same (length m.tasks) m.running_task_index inside in
          let pos = ahead_pos (length m.tasks) m.running_task_index k inside in
          absurd (omega (arith, first, pos, near));
    }

    Picked-skip :
        (j : ℕ) (target t : Task World) (m' : TaskManager World)
        → get_elem? after.tasks j ≡ some target
        → can_run (update_state w target) ≡ true
        → i ≢ j
        → can_run (update_state w task) ≡ false
        → Picked after t m'
        → Picked m t m'
    Picked-skip j target t m' e runs other unready p =
        let len = length-set m.tasks i (update_state w task) in
        let jn : j < length m.tasks = omega (arith, get_elem?-lt after.tasks j target e, len) in
        let far : i ≢ m'.running_task_index = λ same. far_off same jn in
        let (old, at_old, same_old) = p.was in
        record {
          in_range = omega (arith, p.in_range, len);
          kept = p.kept ∙ len;
          picked = p.picked;
          ready = p.ready;
          was = (old, sym (get_elem?-set_ne m.tasks i _ _ far) ∙ at_old, same_old);
          updated = λ k one f. elim (updated_at m.tasks i k task one at f) [
            | inl same ↦ p.updated k one same
            | inr new ↦ elim (p.updated k (update_state w one) new) [
              | inl once ↦ inr once
              | inr twice ↦ inr (twice ∙ ap some (update_state-twice one))
            ]
          ];
          skipped = λ k one f near. elim (Bool-cases (i == k)) [
            | inl same ↦
                let same' : i ≡ k = (==_iff i k).0 same in
                let one' : one ≡ task =
                  some-injective one task (sym f ∙ ap (get_elem? m.tasks) (sym same') ∙ at) in
                ap (λ u. can_run (update_state w u)) one' ∙ unready
            | inr ne ↦
                p.skipped k one (get_elem?-set_ne m.tasks i k _ (==_ne i k ne) ∙ f)
                  (nearer k (==_ne i k ne) (get_elem?-lt m.tasks k one f) far near)
          ];
        }
      where
        far_off : i ≡ m'.running_task_index → j < length m.tasks → ⊥
        far_off same jn =
            let len = length-set m.tasks i (update_state w task) in
            let ni = next_index-lt (length m.tasks) m.running_task_index inside in
            let close = ahead_lt (length m.tasks) i j ni jn other in
            let round : ahead (length m.tasks) i i ≡ length m.tasks = ground (arith, ni) in
            let stop = p.skipped j target e (rw (len, sym same) (omega (arith, close, round))) in cc

        nearer :
            (k : ℕ)
            → i ≢ k
            → k < length m.tasks
            → i ≢ m'.running_task_index
            → ahead (length m.tasks) m.running_task_index k
              < ahead (length m.tasks) m.running_task_index m'.running_task_index
            → ahead (length after.tasks) i k < ahead (length after.tasks) i m'.running_task_index
        nearer k ne kn far near =
            let len = length-set m.tasks i (update_state w task) in
            let pn : m'.running_task_index < length m.tasks = omega (arith, p.in_range, len) in
            let a = ahead_next (length m.tasks) m.running_task_index k inside kn ne in
            let b = ahead_next (length m.tasks) m.running_task_index _ inside pn far in
            rw len (omega (arith, a, b, near))

  pick_near :
      (fuel : ℕ) (m : TaskManager World) (j : ℕ) (target : Task World)
      → m.running_task_index < length m.tasks
      → get_elem? m.tasks j ≡ some target
      → can_run (update_state w target) ≡ true
      → ahead (length m.tasks) m.running_task_index j ≤ fuel
      → (t : Task World) × (m' : TaskManager World) × (pick_next_task fuel w m ≡ some (t, m'))
        × Picked m t m'
  pick_near zero m j target inside e runs enough =
      absurd (omega (arith, ahead_pos (length m.tasks) m.running_task_index j inside, enough))
  pick_near (suc fuel) m j target inside e runs enough =
      let next = next_index (length m.tasks) m.running_task_index in
      let ni = next_index-lt (length m.tasks) m.running_task_index inside in
      let jn = get_elem?-lt m.tasks j target e in
      let (task, at) = get_elem?-total m.tasks next ni in
      let len = length-set m.tasks next (update_state w task) in
      elim (Bool-cases (can_run (update_state w task))) [
        | inl ready ↦ (_, _, pick-found fuel m task at ready, Picked-found m task inside at ready)
        | inr unready ↦
            let other : next ≢ j = λ same.
              let found : some task ≡ some target = sym at ∙ ap (get_elem? m.tasks) same ∙ e in
              clash task target (some-injective task target found) unready runs in
            let e' = get_elem?-set_ne m.tasks next j (update_state w task) other ∙ e in
            let less = ahead_next (length m.tasks) m.running_task_index j inside jn other in
            let (t, m', run, p) =
              pick_near fuel (after m task inside at) j target (rw len ni) e' runs
                (rw len (omega (arith, less, enough))) in
            (
              t,
              m',
              pick-skip fuel m task at unready ∙ run,
              Picked-skip m task inside at j target t m' e' runs other unready p,
            )
      ]
    where
      clash :
          (task target : Task World)
          → task ≡ target
          → can_run (update_state w task) ≡ false
          → can_run (update_state w target) ≡ true
          → ⊥
      clash task target same unready runs = cc

  -- If some task can run once its state is updated, then `pick_next_task` ends within as many rounds
  -- as there are tasks, and picks as `Picked` says.
  pub pick_next_task-Picked :
      (m : TaskManager World) (j : ℕ) (target : Task World)
      → m.running_task_index < length m.tasks
      → get_elem? m.tasks j ≡ some target
      → can_run (update_state w target) ≡ true
      → (t : Task World) × (m' : TaskManager World) × (pick_next_task (length m.tasks) w m
          ≡ some (t, m'))
        × Picked m t m'
  pick_next_task-Picked m j target inside e runs =
      pick_near (length m.tasks) m j target inside e runs
        (ground (arith, get_elem?-lt m.tasks j target e))

  -- In one call, where `pick_next_task` passes over a task that can run, the new running task is fewer
  -- steps of the round before it than the last one was.
  pub pick_next_task-nearer :
      (m m' : TaskManager World) (t : Task World) (j : ℕ) (target : Task World)
      → m.running_task_index < length m.tasks
      → get_elem? m.tasks j ≡ some target
      → can_run (update_state w target) ≡ true
      → pick_next_task (length m.tasks) w m ≡ some (t, m')
      → (m'.running_task_index ≡ j)
        ⊎ (ahead (length m.tasks) m'.running_task_index j
            < ahead (length m.tasks) m.running_task_index j)
  pick_next_task-nearer m m' t j target inside e runs run =
      let (t₁, m₁, run₁, p) = pick_next_task-Picked m j target inside e runs in
      let same : m₁ ≡ m' = cc in
      subst
        (λ n.
          (n.running_task_index ≡ j)
          ⊎ (ahead (length m.tasks) n.running_task_index j
              < ahead (length m.tasks) m.running_task_index j))
        same
        (nearer m₁ p.in_range (get_elem?-lt m.tasks j target e)
          (λ near. stop (p.skipped j target e near)))
    where
      stop : can_run (update_state w target) ≡ false → ⊥
      stop unready = cc

      nearer :
          (n : TaskManager World)
          → n.running_task_index < length m.tasks
          → j < length m.tasks
          → (ahead (length m.tasks) m.running_task_index j
                < ahead (length m.tasks) m.running_task_index n.running_task_index
              → ⊥)
          → (n.running_task_index ≡ j)
            ⊎ (ahead (length m.tasks) n.running_task_index j
                < ahead (length m.tasks) m.running_task_index j)
      nearer n kn jn far = elim (Bool-cases (n.running_task_index == j)) [
        | inl same ↦ inl ((==_iff n.running_task_index j).0 same)
        | inr other ↦ inr (ground (arith, other, far))
      ]
