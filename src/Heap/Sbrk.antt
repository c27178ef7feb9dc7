-- ===== src/Heap/Sbrk.antt =====
-- The heap of a task: one fixed piece of memory, given out from its start on.
use pinyon.Prelude.{
  ℕ, ◌+◌, ◌*◌, ◌/◌, ◌%◌, ◌≤◌, ◌<◌, ◌≡◌, ◌≢◌, refl, subst, ◌⊎◌, inl, inr, arith, true, false, not,
  ◌||◌, ltb, ◌==◌, Bool-cases, if◌then◌else◌,
}
use pinyon.Heap.{
  Allocation, no_memory, word, HighWatermark, FixedAllocation, watermark_allocate, watermark_add,
  fixed_allocate, binder_allocate, fixed_allocation, high_watermark, TaskHeap, sbrk,
}
use pinyon.Heap.Watermark.{Bumped, refused, bumped, watermark_allocate-Bumped}

-- A heap over `length` bytes at `base`: untouched, or handed to the bump allocator.
abbrev pub IsHeap : (base length : ℕ) → FixedAllocation × HighWatermark → Type 0
IsHeap base length (f, a) =
    (f.start ≡ base)
    × (f.size ≡ length)
    × (((f.has_memory ≡ true) × (a.watermark ≡ 0))
        ⊎ ((f.has_memory ≡ false)
            × (base ≤ a.watermark)
            × (a.watermark ≤ base + length)
            × (a.end ≡ base + length)))

-- The first byte that was not given out.
abbrev pub break_of : FixedAllocation × HighWatermark → ℕ
break_of (f, a) = if f.has_memory then f.start else a.watermark

-- The allocation of a task's heap, by its pointer.
abbrev grow : ℕ → FixedAllocation × HighWatermark → ℕ × (FixedAllocation × HighWatermark)
grow n heap =
    let (allocation, heap') = binder_allocate fixed_allocation high_watermark n heap in
    (allocation.ptr, heap')

-- What the heap of a task is in a memory.
abbrev pub held : TaskHeap → (ℕ → FixedAllocation) → FixedAllocation × HighWatermark
held heap memory = (memory heap.fallback_allocator, heap.high_watermark_allocator)

-- What `sbrk` returns: the null pointer, or bytes behind those given out before, within the heap.
pub data Grown (base length increase : ℕ) (heap : FixedAllocation × HighWatermark)
    : ℕ × (FixedAllocation × HighWatermark) → Type 0 where
  exhausted :
      (heap' : FixedAllocation × HighWatermark)
      → IsHeap base length heap'
      → break_of heap' ≡ break_of heap
      → base + length < break_of heap + (increase + 7) / 8 * 8
      → Grown base length increase heap (0, heap')
  grown :
      (ptr : ℕ) (heap' : FixedAllocation × HighWatermark)
      → ptr ≡ break_of heap
      → IsHeap base length heap'
      → break_of heap + increase ≤ break_of heap'
      → break_of heap' ≤ base + length
      → Grown base length increase heap (ptr, heap')

module _ (n : ℕ) (f f₁ : FixedAllocation) (a a₁ : HighWatermark) (al extra : Allocation)
    (own : watermark_allocate n a ≡ (al, a₁)) where
  sbrk-own : (al.ptr == 0) ≡ false → grow n (f, a) ≡ (al.ptr, (f, a₁))
  unfolding binder_allocate
  sbrk-own e = rw (own, e) refl

  sbrk-refused :
      (al.ptr == 0) ≡ true
      → fixed_allocate n f ≡ (extra, f₁)
      → (extra.ptr == 0) ≡ true
      → grow n (f, a) ≡ (0, (f₁, a₁))
  unfolding binder_allocate
  sbrk-refused e g h = rw (own, e, g, h) refl

  sbrk-added :
      (again : Allocation) (a₂ : HighWatermark)
      → (al.ptr == 0) ≡ true
      → fixed_allocate n f ≡ (extra, f₁)
      → (extra.ptr == 0) ≡ false
      → watermark_allocate n (watermark_add extra.ptr extra.size a₁) ≡ (again, a₂)
      → grow n (f, a) ≡ (again.ptr, (f₁, a₂))
  unfolding binder_allocate
  sbrk-added again a₂ e g h i = rw (own, e, g, h, i) refl

watermark_allocate-empty :
    (n : ℕ) (a : HighWatermark) → a.watermark ≡ 0 → watermark_allocate n a ≡ (no_memory, a)
unfolding watermark_allocate
watermark_allocate-empty n a e = ground (arith, e)

fixed_allocate-short :
    (n : ℕ) (f : FixedAllocation)
    → (not f.has_memory || ltb f.size n) ≡ true
    → fixed_allocate n f ≡ (no_memory, f)
unfolding fixed_allocate
fixed_allocate-short n f e = rw e refl

fixed_allocate-given :
    (n : ℕ) (f : FixedAllocation)
    → (not f.has_memory || ltb f.size n) ≡ false
    → fixed_allocate n f
      ≡ (record { ptr = f.start; size = f.size }, record f { has_memory = false })
unfolding fixed_allocate
fixed_allocate-given n f e = rw e refl

module _ (base length n : ℕ) (f : FixedAllocation) (a : HighWatermark) (here : f.start ≡ base)
    (long : f.size ≡ length) (used : 0 < base) (pos : 0 < n)
    (space : base + length + n + 7 < word) where
  -- A heap that the bump allocator runs on.
  sbrk-running :
      f.has_memory ≡ false
      → base ≤ a.watermark
      → a.watermark ≤ base + length
      → a.end ≡ base + length
      → Grown base length n (f, a) (grow n (f, a))
  sbrk-running gone lo hi end =
      cases (watermark_allocate n a) refl (watermark_allocate-Bumped n a pos (omega (arith, hi)))
    where
      cases :
          (r : Allocation × HighWatermark)
          → watermark_allocate n a ≡ r
          → Bumped n a r
          → Grown base length n (f, a) (grow n (f, a))
      cases _ e (refused why) =
          let short : fixed_allocate n f ≡ (no_memory, f) =
            fixed_allocate-short n f (ground (arith, gone)) in
          rw (sbrk-refused n f f a a no_memory no_memory e refl short refl) (
            exhausted (f, a) (here, long, inr (gone, lo, hi, end)) refl
              (rw gone (ground (arith, why, lo, end))))
      cases _ e (bumped size lo' hi' fits up) =
          let a₁ : HighWatermark = record a { watermark = a.watermark + size } in
          let al : Allocation = record { ptr = a.watermark; size = size } in
          let nonzero : (a.watermark == 0) ≡ false = ground (arith, up) in
          let same : a.watermark ≡ break_of (f, a) = rw gone refl in
          rw (sbrk-own n f f a a₁ al al e nonzero) (
            grown a.watermark (f, a₁) same
              (here, long, inr (gone, omega (arith, lo), omega (arith, fits, end), end))
              (rw gone (omega (arith, lo'))) (rw gone (omega (arith, fits, end))))

  -- A heap that nothing was taken from: the binder moves the fixed piece to the bump allocator.
  sbrk-fresh : f.has_memory ≡ true → a.watermark ≡ 0 → Grown base length n (f, a) (grow n (f, a))
  unfolding watermark_add
  sbrk-fresh there empty = elim (Bool-cases (ltb length n)) [
    | inl short ↦
        let kept : fixed_allocate n f ≡ (no_memory, f) =
          fixed_allocate-short n f (rw (there, long) short) in
        rw
          (sbrk-refused n f f a a no_memory no_memory (watermark_allocate-empty n a empty) refl kept
            refl)
          (exhausted (f, a) (here, long, inl (there, empty)) refl
            (rw there (ground (arith, short, here))))
    | inr enough ↦
        let given : fixed_allocate n f
            ≡ (record { ptr = f.start; size = f.size }, record f { has_memory = false }) =
          fixed_allocate-given n f (rw (there, long) enough) in
        let moved : HighWatermark = watermark_add f.start f.size a in
        cases given (watermark_allocate n moved) refl
          (watermark_allocate-Bumped n moved pos (omega (arith, here)))
  ]
    where
      moved_end : (f.start + f.size) % word ≡ base + length
      moved_end = omega (arith, here, long)

      cases :
          fixed_allocate n f
            ≡ (record { ptr = f.start; size = f.size }, record f { has_memory = false })
          → (r : Allocation × HighWatermark)
          → watermark_allocate n (watermark_add f.start f.size a) ≡ r
          → Bumped n (watermark_add f.start f.size a) r
          → Grown base length n (f, a) (grow n (f, a))
      cases given _ e (refused why) =
          let f₁ : FixedAllocation = record f { has_memory = false } in
          let extra : Allocation = record { ptr = f.start; size = f.size } in
          let nonzero : (f.start == 0) ≡ false = ground (arith, here) in
          rw
            (sbrk-added n f f₁ a a no_memory extra (watermark_allocate-empty n a empty) no_memory
              (watermark_add f.start f.size a) refl given nonzero e)
            (exhausted (f₁, watermark_add f.start f.size a)
              (here, long, inr (refl, omega (arith, here), omega (arith, here), moved_end))
              (rw there refl) (rw there (ground (arith, why, here, moved_end))))
      cases given _ e (bumped size lo hi fits up) =
          let f₁ : FixedAllocation = record f { has_memory = false } in
          let extra : Allocation = record { ptr = f.start; size = f.size } in
          let a₁ : HighWatermark = record (watermark_add f.start f.size a) {
            watermark = f.start + size;
          } in
          let al : Allocation = record { ptr = f.start; size = size } in
          let nonzero : (f.start == 0) ≡ false = ground (arith, here) in
          let same : f.start ≡ break_of (f, a) = rw there refl in
          rw
            (sbrk-added n f f₁ a a no_memory extra (watermark_allocate-empty n a empty) al a₁ refl
              given nonzero e)
            (grown f.start (f₁, a₁) same
              (
                here,
                long,
                inr (refl, omega (arith, here), omega (arith, fits, moved_end), moved_end),
              )
              (rw there (omega (arith, lo))) (omega (arith, fits, moved_end)))

grow-Grown :
    (base length increase : ℕ) (heap : FixedAllocation × HighWatermark)
    → IsHeap base length heap
    → 0 < base
    → 0 < increase
    → base + length + increase + 7 < word
    → Grown base length increase heap (grow increase heap)
grow-Grown base length increase (f, a) (here, long, inl (there, empty)) used pos space =
    sbrk-fresh base length increase f a here long used pos space there empty
grow-Grown base length increase (f, a) (here, long, inr (gone, lo, hi, end)) used pos space =
    sbrk-running base length increase f a here long used pos space gone lo hi end

-- The result of `sbrk`, the heap in memory after it, and what stays of memory.
abbrev pub GrownIn :
    (base length increase : ℕ) (heap : TaskHeap) (memory : ℕ → FixedAllocation)
    → ℕ × TaskHeap × (ℕ → FixedAllocation)
    → Type 0
GrownIn base length increase heap memory (ptr, heap', memory') =
    Grown base length increase (held heap memory) (ptr, held heap' memory')
    × (heap'.fallback_allocator ≡ heap.fallback_allocator)
    × ((place : ℕ) → place ≢ heap.fallback_allocator → memory' place ≡ memory place)

-- Let a task's heap, with the fixed piece as it lies where the binder's pointer leads, be over a piece of
-- memory that does not start at 0, with room in the address space behind the piece for the bytes asked
-- for and 7 more. Then `sbrk` of more than 0 bytes returns the first byte that was not given out and
-- moves past at least the bytes asked for, within the piece; or it returns the null pointer, when the
-- bytes rounded up to 8 do not fit, and what was given out stays. The result is a heap over the same
-- piece by the same pointer, and the other fixed pieces in memory stay.
pub sbrk-Grown :
    (base length increase : ℕ) (heap : TaskHeap) (memory : ℕ → FixedAllocation)
    → IsHeap base length (held heap memory)
    → 0 < base
    → 0 < increase
    → base + length + increase + 7 < word
    → GrownIn base length increase heap memory (sbrk increase heap memory)
unfolding sbrk
sbrk-Grown base length increase heap memory is_heap used pos space =
    let p = heap.fallback_allocator in
    let (ptr, (f, a)) = grow increase (held heap memory) in
    let here : (p == p) ≡ true = ground arith in
    let same : f ≡ (if p == p then f else memory p) = rw here refl in
    (
      subst (λ g. Grown base length increase (held heap memory) (ptr, (g, a))) same
          (grow-Grown base length increase (held heap memory) is_heap used pos space),
      refl,
      λ place other. let off : (place == p) ≡ false = ground (arith, other) in rw off refl,
    )
