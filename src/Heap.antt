-- ===== src/Heap.antt =====
-- The small allocators of pine/malloc.hpp and pine/malloc.cpp: HighWatermarkAllocator,
-- FixedAllocation and FallbackAllocatorBinder, which are the heap of a task (Heap of kernel/tasks.hpp).
pub mod Watermark
pub mod Sbrk
mod Tests
use pinyon.Prelude.{ℕ, ◌+◌, ◌%◌, ◌^◌, Bool, true, false, not, ◌||◌, ltb, ◌==◌, if◌then◌else◌}
use pinyon.TwoMath.{align_up_two}

abbrev pub word : ℕ
word = 2 ^ 32

abbrev pub alignment : ℕ
alignment = 8

-- pine::Allocation; the null pointer is 0.
pub record Allocation : Type 0 where
  pub ptr : ℕ
  pub size : ℕ

abbrev pub no_memory : Allocation
no_memory = record { ptr = 0; size = 0 }

-- What FallbackAllocatorBinder asks of its two allocators.
pub record Allocator (S : Type 0) : Type 0 where
  pub allocate : ℕ → S → Allocation × S
  pub add : (ptr size : ℕ) → S → S
  pub preferred_size : ℕ → ℕ

pub record HighWatermark : Type 0 where
  pub start : ℕ
  pub watermark : ℕ
  pub end : ℕ

unfoldable pub watermark_allocate : ℕ → HighWatermark → Allocation × HighWatermark
watermark_allocate requested_size s =
    let requested_size' = align_up_two 32 requested_size alignment in
    if s.watermark == 0 || ltb s.end ((s.watermark + requested_size') % word)
    then (no_memory, s)
    else (
      record { ptr = s.watermark; size = requested_size' },
      record s { watermark = (s.watermark + requested_size') % word },
    )

unfoldable pub watermark_add : (ptr size : ℕ) → HighWatermark → HighWatermark
watermark_add ptr size s = record { start = ptr; watermark = ptr; end = (ptr + size) % word }

abbrev pub high_watermark : Allocator HighWatermark
high_watermark = record {
  allocate = watermark_allocate;
  add = watermark_add;
  preferred_size = λ requested_size. requested_size;
}

pub record FixedAllocation : Type 0 where
  pub start : ℕ
  pub size : ℕ
  pub has_memory : Bool

unfoldable pub fixed_allocate : ℕ → FixedAllocation → Allocation × FixedAllocation
fixed_allocate amount s =
    if not s.has_memory || ltb s.size amount
    then (no_memory, s)
    else (record { ptr = s.start; size = s.size }, record s { has_memory = false })

unfoldable pub fixed_free : FixedAllocation → ℕ × FixedAllocation
fixed_free s = (s.size, record s { has_memory = true })

-- FixedAllocation has no `add`, and the binder does not call it on its fallback.
abbrev pub fixed_allocation : Allocator FixedAllocation
fixed_allocation = record {
  allocate = fixed_allocate;
  add = λ ptr size s. s;
  preferred_size = λ requested_size. requested_size;
}

-- The state of the binder: the fallback that it points to and its own allocator.
unfoldable pub binder_allocate :
    {F A : Type 0} → Allocator F → Allocator A → ℕ → F × A → Allocation × (F × A)
binder_allocate fallback own requested_size (f, a) =
    let (allocation, a₁) = own.allocate requested_size a in
    let (extra, f₁) = fallback.allocate (own.preferred_size requested_size) f in
    let (again, a₂) = own.allocate requested_size (own.add extra.ptr extra.size a₁) in
    if allocation.ptr == 0
    then if extra.ptr == 0 then (no_memory, (f₁, a₁)) else (again, (f₁, a₂))
    else (allocation, (f, a₁))

unfoldable pub binder_add : {F A : Type 0} → Allocator A → (ptr size : ℕ) → F × A → F × A
binder_add own ptr size (f, a) = (f, own.add ptr size a)

unfoldable pub binder_free :
    {F A : Type 0} → (free : Allocation → A → ℕ × A) → Allocation → F × A → ℕ × (F × A)
binder_free free alloc (f, a) = let (freed, a') = free alloc a in (freed, (f, a'))

-- HighWatermarkAllocator::free
unfoldable pub watermark_free : Allocation → HighWatermark → ℕ × HighWatermark
watermark_free alloc s = (0, s)

-- Heap as the member of a task: where the binder's `m_fallback_allocator` points, and its own allocator.
-- In a task of Task::try_create it points to a member of a local Heap that was copied.
pub record TaskHeap : Type 0 where
  pub fallback_allocator : ℕ
  pub high_watermark_allocator : HighWatermark

-- Task::sbrk, over the memory that holds FixedAllocations.
unfoldable pub sbrk :
    ℕ → TaskHeap → (memory : ℕ → FixedAllocation) → ℕ × TaskHeap × (ℕ → FixedAllocation)
sbrk increase heap memory =
    let (allocation, (f, a)) =
      binder_allocate fixed_allocation high_watermark increase
        (memory heap.fallback_allocator, heap.high_watermark_allocator) in
    (
      allocation.ptr,
      record heap { high_watermark_allocator = a },
      λ place. if place == heap.fallback_allocator then f else memory place,
    )
