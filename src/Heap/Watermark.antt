-- ===== src/Heap/Watermark.antt =====
-- What the bump allocator gives out.
use pinyon.Prelude.{
  ℕ, ◌+◌, ◌*◌, ◌/◌, ◌%◌, ◌≤◌, ◌<◌, ◌≡◌, ◌⊎◌, inl, inr, arith, true, ◌||◌, ltb, ◌==◌, Bool-cases,
}
use pinyon.TwoMath.{align_up_two}
use pinyon.TwoMath.Align.{align_up_two_ceil}
use pinyon.Heap.{Allocation, no_memory, alignment, word, HighWatermark, watermark_allocate}

-- A refusal, or the bytes from the watermark on up to the new one, enough and within the range.
pub data Bumped (requested_size : ℕ) (s : HighWatermark) : Allocation × HighWatermark → Type 0 where
  refused :
      (s.watermark ≡ 0) ⊎ (s.end < s.watermark + (requested_size + 7) / 8 * 8)
      → Bumped requested_size s (no_memory, s)
  bumped :
      (size : ℕ)
      → requested_size ≤ size
      → size < requested_size + 8
      → s.watermark + size ≤ s.end
      → 0 < s.watermark
      → Bumped requested_size s
          (record { ptr = s.watermark; size = size }, record s { watermark = s.watermark + size })

-- A request above 0 that does not leave the address space is refused only if there is no memory or it
-- does not fit, rounded up to 8 bytes; otherwise the bytes at the watermark are given out, at least
-- those asked for and less than 8 more, and the watermark moves behind them, within the range.
pub watermark_allocate-Bumped :
    (requested_size : ℕ) (s : HighWatermark)
    → 0 < requested_size
    → s.watermark + requested_size + 7 < word
    → Bumped requested_size s (watermark_allocate requested_size s)
unfolding watermark_allocate
watermark_allocate-Bumped requested_size s pos room =
    let (whole, lo, hi) = align_up_two_ceil 32 3 requested_size (omega arith) pos (omega arith) in
    let size = align_up_two 32 requested_size alignment in
    let sum : (s.watermark + size) % word ≡ s.watermark + size = omega (arith, hi) in
    elim (Bool-cases (s.watermark == 0 || ltb s.end (s.watermark + size))) [
      | inl no' ↦ rw (sum, no') (refused (short size (omega (arith, whole, lo, hi)) no'))
      | inr yes' ↦ rw (sum, yes') (bumped size lo hi (ground (arith, yes')) (ground (arith, yes')))
    ]
  where
    short :
        (size : ℕ)
        → size ≡ (requested_size + 7) / 8 * 8
        → (s.watermark == 0 || ltb s.end (s.watermark + size)) ≡ true
        → (s.watermark ≡ 0) ⊎ (s.end < s.watermark + (requested_size + 7) / 8 * 8)
    short size rounded e = elim (Bool-cases (s.watermark == 0)) [
      | inl z ↦ inl (ground (arith, z))
      | inr nz ↦ inr (ground (arith, nz, e, rounded))
    ]
