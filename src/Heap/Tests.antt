-- ===== src/Heap/Tests.antt =====
-- A heap of 256 bytes at 4096.
use pinyon.Prelude.{ℕ, ◌≡◌, refl, inl, arith, true}
use pinyon.TwoMath.{align_up_two}
use pinyon.Heap.{
  HighWatermark, FixedAllocation, watermark_allocate, watermark_add, fixed_allocate,
  binder_allocate, TaskHeap, sbrk,
}
use pinyon.Heap.Sbrk.{GrownIn, sbrk-Grown}

abbrev piece : FixedAllocation
piece = record { start = 4096; size = 256; has_memory = true }

abbrev untouched : HighWatermark
untouched = record { start = 0; watermark = 0; end = 0 }

abbrev running : HighWatermark
running = record { start = 4096; watermark = 4112; end = 4352 }

-- The binder points to the piece at 64.
abbrev heap : TaskHeap
heap = record { fallback_allocator = 64; high_watermark_allocator = untouched }

abbrev memory : ℕ → FixedAllocation
memory place = piece

sbrk_run : (sbrk 12 heap memory).0 ≡ 4096
unfolding sbrk binder_allocate watermark_allocate watermark_add fixed_allocate align_up_two
sbrk_run = refl

sbrk_runs : (sbrk 12 heap memory).1 ≡ record heap { high_watermark_allocator = running }
unfolding sbrk binder_allocate watermark_allocate watermark_add fixed_allocate align_up_two
sbrk_runs = refl

sbrk-Grown_example : GrownIn 4096 256 12 heap memory (sbrk 12 heap memory)
sbrk-Grown_example =
    sbrk-Grown 4096 256 12 heap memory (refl, refl, inl (refl, refl)) (omega arith) (omega arith)
      (omega arith)
