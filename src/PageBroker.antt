-- ===== src/PageBroker.antt =====
-- PageBroker of pine/malloc.hpp: the page allocator with its account of scratch bytes, the runway.
pub mod Runway
use pinyon.Prelude.{
  ℕ, ◌+◌, ◌-◌, ◌*◌, ◌%◌, Bool, true, false, ◌&&◌, ltb, ◌==◌, if◌then◌else◌, Option, none, some,
  ◌>>=◌,
}
use pinyon.TwoMath.{align_up_two, align_up_to_power}
use pinyon.Region.{Region, words, page_size, size}
use pinyon.PageAllocator.{Backend, BrokeredAllocation, max_depth, node_size}
use pinyon.PageAllocator.Calls.{allocate, reserve_region, add, free, init}
use pinyon.PageAllocator.Nodes.{NodeAllocator}

-- pine::Allocation
pub record Allocation : Type 0 where
  pub ptr : ℕ
  pub size : ℕ

unfoldable pub as_allocation : BrokeredAllocation → Allocation
as_allocation a = record { ptr = a.ptr; size = a.size }

-- `operator bool`
unfoldable pub is_given : BrokeredAllocation → Bool
is_given a = if a.size == 0 then false else true

-- PageAllocatorBackend::max_overhead() and initial_cost()
abbrev pub max_overhead : ℕ
max_overhead = node_size * max_depth

abbrev pub initial_cost : ℕ
initial_cost = node_size

unfoldable pub required_runway : ℕ
required_runway = align_up_to_power 32 max_overhead

unfoldable pub required_runway_in_pages : ℕ
required_runway_in_pages = align_up_two 32 required_runway page_size

pub record Broker (S : Type 0) : Type 0 where
  pub curr_runway : ℕ
  pub page_allocator : Backend S

module _ {S : Type 0} (nodes : NodeAllocator S) where
  -- `init`, on the node allocator as `m_node_allocator.add` left it.
  unfoldable pub broker_init : S → (allocating_range scratch_pages : Region) → Option (Broker S)
  broker_init node_allocator allocating_range scratch_pages = do
    b ← init nodes node_allocator allocating_range
    some (record {
      curr_runway = (size page_size scratch_pages + words - initial_cost) % words;
      page_allocator = b;
    })

  unfoldable pub broker_add : Region → Broker S → Option (Broker S)
  broker_add region broker = do
    b ← add nodes region broker.page_allocator
    some (record broker { page_allocator = b })

  unfoldable pub allocate_required_runway : Broker S → Option (Bool × Broker S)
  allocate_required_runway broker = do
    (given, b) ← allocate nodes required_runway_in_pages 1 broker.page_allocator
    let broker' = record broker { page_allocator = b }
    let runway = (broker.curr_runway + given.size + words - given.overhead_used) % words
    some (
        if is_given given
        then (true, record broker' { curr_runway = runway })
        else (false, broker'))

  -- What `allocate` and `reserve_region` share: the runway is filled up first, then `call` is made
  -- and paid for.
  unfoldable pub with_runway :
      (call : Backend S → Option (BrokeredAllocation × Backend S)) (broker : Broker S)
      → Option (Allocation × Broker S)
  with_runway call broker =
      let pay = λ (broker' : Broker S). call broker'.page_allocator >>= λ (given, b). some (
        as_allocation given,
        record {
          curr_runway = (broker'.curr_runway + words - given.overhead_used) % words;
          page_allocator = b;
        },
      ) in
      let refill = allocate_required_runway broker >>= λ (filled, broker').
      let paid = pay broker' in
      if filled then paid else some (record { ptr = 0; size = 0 }, broker') in
      let direct = pay broker in if ltb broker.curr_runway required_runway then refill else direct

  unfoldable pub broker_allocate : ℕ → ℕ → Broker S → Option (Allocation × Broker S)
  broker_allocate num_pages page_alignment = with_runway (allocate nodes num_pages page_alignment)

  unfoldable pub broker_reserve_region : Region → Broker S → Option (Allocation × Broker S)
  broker_reserve_region region = with_runway (reserve_region nodes region)

  unfoldable pub broker_free : Allocation → Broker S → Option (Broker S)
  broker_free alloc broker = do
    b ← free nodes alloc.ptr alloc.size broker.page_allocator
    some (record broker { page_allocator = b })
