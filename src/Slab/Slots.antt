-- ===== src/Slab/Slots.antt =====
-- The 32 slots of a page: which are given out, and how many are free.
use pinyon.Prelude.{
  ℕ, zero, suc, ◌+◌, ◌-◌, ◌*◌, ◌/◌, ◌%◌, ◌^◌, ◌≤◌, ◌<◌, ◌≡◌, refl, sym, ap, ◌∙◌, inl, inr, arith,
  Bool, true, false, ◌&&◌, ltb, leb, ◌==◌, ==_iff, if◌then◌else◌, Bool-cases, List, [], ◌∷◌,
}
use pinyon.BitMap.{has}
use pinyon.BitMap.Bits.{has-add, has-sub}

unfoldable pub first_word : List (List ℕ) → ℕ
first_word [] = 0
first_word (bitmap ∷ bitmaps) = elim bitmap [ [] ↦ 0 | w ∷ ws ↦ w ]

-- The number of slots below `n` that are free.
unfoldable pub free_slots : (w n : ℕ) → ℕ
free_slots w zero = 0
free_slots w (suc n) = (if has w n then 0 else 1) + free_slots w n

pub free_slots-add :
    (w i n : ℕ)
    → has w i ≡ false
    → free_slots w n ≡ free_slots (w + 2 ^ i) n + (if ltb i n then 1 else 0)
unfolding free_slots
free_slots-add w i zero h = ground arith
free_slots-add w i (suc n) h =
    rw (free_slots-add w i n h, has-add i n w h)
      (elim (Bool-cases (i == n)) [
        | inl e ↦ let f : n ≡ i = ground (arith, e) in ground (arith, e, h, ap (has w) f)
        | inr e ↦ ground (arith, e)
      ])

pub free_slots-sub : (w i n : ℕ) → has w i ≡ true → free_slots w n ≤ free_slots (w - 2 ^ i) n
unfolding free_slots
free_slots-sub w i zero h = omega arith
free_slots-sub w i (suc n) h =
    let rest = free_slots-sub w i n h in rw (has-sub i n w h) (ground (arith, rest))

pub free_slots-full : (w n : ℕ) → ((k : ℕ) → k < n → has w k ≡ true) → free_slots w n ≡ 0
unfolding free_slots
free_slots-full w zero all = refl
free_slots-full w (suc n) all =
    let rest = free_slots-full w n (λ k lt. all k (omega arith)) in
    rw (all n (omega arith)) (omega (arith, rest))

-- The slot of an address of the page's first 32.
unfoldable pub is_slot : (page q : ℕ) → Bool
is_slot page q = leb page q && ltb q (page + 512) && (q - page) % 16 == 0

unfoldable pub live_at : (page w q : ℕ) → ℕ
live_at page w q = if is_slot page q then if has w ((q - page) / 16) then 1 else 0 else 0

pub live_at_le : (page w q : ℕ) → live_at page w q ≤ 1
unfolding live_at
live_at_le page w q = ground arith

is_slot-slot : (page j : ℕ) → j < 32 → is_slot page (page + j * 16) ≡ true
unfolding is_slot
is_slot-slot page j low = ground arith

slot_index : (page j : ℕ) → (page + j * 16 - page) / 16 ≡ j
slot_index page j = omega arith

pub live_at-slot :
    (page w j : ℕ) → j < 32 → live_at page w (page + j * 16) ≡ (if has w j then 1 else 0)
unfolding live_at
live_at-slot page w j low = rw (is_slot-slot page j low, slot_index page j) refl

is_slot-bounds :
    (page q : ℕ) → is_slot page q ≡ true → (page ≤ q) × (q < page + 512) × ((q - page) % 16 ≡ 0)
unfolding is_slot
is_slot-bounds page q h = ground arith

-- An address that is given out is a slot.
pub live_at-inside :
    (page w q : ℕ)
    → live_at page w q ≡ 1
    → (j : ℕ) × (j < 32) × (q ≡ page + j * 16) × (has w j ≡ true)
unfolding live_at
live_at-inside page w q h =
    let slot : is_slot page q ≡ true = ground arith in
    let taken : has w ((q - page) / 16) ≡ true = ground arith in
    let (above, below, whole) = is_slot-bounds page q slot in
    ((q - page) / 16, omega arith, omega arith, taken)

same_slot : (page j q : ℕ) → is_slot page q ≡ true → (page + j * 16 == q) ≡ (j == (q - page) / 16)
same_slot page j q h = let (above, below, whole) = is_slot-bounds page q h in ground arith

other_slot : (page j q : ℕ) → j < 32 → is_slot page q ≡ false → (page + j * 16 == q) ≡ false
other_slot page j q low h = elim (Bool-cases (page + j * 16 == q)) [
  | inl e ↦
      let f : is_slot page q ≡ true =
        ap (is_slot page) (sym ((==_iff (page + j * 16) q).0 e)) ∙ is_slot-slot page j low in
      cc
  | inr e ↦ e
]

pub live_at-add :
    (page w j q : ℕ)
    → j < 32
    → has w j ≡ false
    → live_at page (w + 2 ^ j) q ≡ (if page + j * 16 == q then 1 else live_at page w q)
unfolding live_at
live_at-add page w j q low h = elim (Bool-cases (is_slot page q)) [
  | inl slot ↦ rw (slot, same_slot page j q slot, has-add j ((q - page) / 16) w h) (ground arith)
  | inr off ↦ rw (off, other_slot page j q low off) refl
]

pub live_at-sub :
    (page w j q : ℕ)
    → j < 32
    → has w j ≡ true
    → live_at page (w - 2 ^ j) q ≡ (if page + j * 16 == q then 0 else live_at page w q)
unfolding live_at
live_at-sub page w j q low h = elim (Bool-cases (is_slot page q)) [
  | inl slot ↦ rw (slot, same_slot page j q slot, has-sub j ((q - page) / 16) w h) (ground arith)
  | inr off ↦ rw (off, other_slot page j q low off) refl
]

-- With the word 0, no slot is given out.
pub live_at-zero : (page q : ℕ) → live_at page 0 q ≡ 0
unfolding live_at has
live_at-zero page q = ground arith

pub free_slots-zero : free_slots 0 32 ≡ 32
unfolding free_slots has
free_slots-zero = refl
