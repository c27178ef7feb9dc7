-- ===== src/PageAllocator/Counter.antt =====
-- A plain node allocator that never gives an address out twice, to run the page allocator on.
use pinyon.Prelude.{ℕ, ◌+◌, ◌≤◌, ◌≡◌, refl, arith, ◌==◌, if◌then◌else◌, Option, none, some}
use pinyon.PageAllocator.Nodes.{NodeAllocator}

pub record Counter : Type 0 where
  pub next : ℕ
  pub held : ℕ → ℕ

pub record Fresh (s : Counter) : Type 0 where
  pub once : (q : ℕ) → s.held q ≤ 1
  pub above : (q : ℕ) → s.next ≤ q → s.held q ≡ 0

abbrev pub take : Counter → Option (Option ℕ × Counter)
take s =
    some
      (some s.next, record { next = s.next + 1; held = λ q. if s.next == q then 1 else s.held q })

abbrev pub give : Counter → ℕ → Option Counter
give s p = some (record s { held = λ q. if p == q then 0 else s.held q })

pub take_lem :
    (s t : Counter) (p : ℕ)
    → Fresh s
    → take s ≡ some (some p, t)
    → Fresh t
      × (s.held p ≡ 0)
      × ((q : ℕ) → t.held q ≡ (if p == q then 1 else s.held q))
      × (30 ≤ 30 + 1)
take_lem s t p f e =
    let taken : t ≡ record { next = s.next + 1; held = λ q. if s.next == q then 1 else s.held q } =
      cc in
    let first : p ≡ s.next = cc in
    rw (taken, first)
      (
        record { once = λ q. ground (arith, f.once q); above = λ q h. ground (arith, f.above q) },
        f.above s.next (omega arith),
        λ q. refl,
        omega arith,
      )

pub take_always : (s t : Counter) → take s ≡ some (none, t) → ⊥
take_always s t e = cc

pub give_lem :
    (s : Counter) (p : ℕ)
    → Fresh s
    → s.held p ≡ 1
    → (t : Counter) × (give s p ≡ some t)
      × Fresh t
      × ((q : ℕ) → t.held q ≡ (if p == q then 0 else s.held q))
      × (30 ≤ 30)
give_lem s p f e = (
  record s { held = λ q. if p == q then 0 else s.held q },
  refl,
  record { once = λ q. ground (arith, f.once q); above = λ q h. ground (arith, f.above q) },
  λ q. refl,
  omega arith,
)

abbrev pub counter_nodes : NodeAllocator Counter
counter_nodes = record {
  allocate = take;
  free = give;
  IsValid = Fresh;
  live = λ s q. s.held q;
  spare = λ s. 30;
  live_le = λ s p f. f.once p;
  allocate_some = take_lem;
  allocate_none = λ s t f e. absurd (take_always s t e);
  allocate_defined = λ s f h. (_, refl);
  free_lem = λ s p f e. give_lem s p f e;
}

abbrev pub unused : Counter
unused = record { next = 1; held = λ _. 0 }

pub unused-Fresh : Fresh unused
unused-Fresh = record { once = λ q. omega arith; above = λ q h. refl }
