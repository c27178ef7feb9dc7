-- ===== src/BitMap/Bits.antt =====
-- The bits of a word after one is set or cleared.
use pinyon.Prelude.{
  ℕ, zero, suc, ◌+◌, ◌-◌, ◌/◌, ◌%◌, ◌^◌, ◌≤◌, ◌≡◌, sym, ap, ◌∙◌, arith, Bool, true, false, ◌==◌,
  if◌then◌else◌, two_pow-suc,
}
use native.Mathlib.Nat.{div-div-eq-div-mul}
use pinyon.BitMap.{has}

pub has-zero : (w : ℕ) → has w 0 ≡ (w % 2 == 1)
unfolding has
has-zero w = let e : w / 2 ^ 0 ≡ w = omega arith in ap (λ k. k % 2 == 1) e

pub has-suc : (w i : ℕ) → has w (suc i) ≡ has (w / 2) i
unfolding has
has-suc w i =
    let e : w / 2 ^ suc i ≡ w / 2 / 2 ^ i =
      ap (λ (t : ℕ). w / t) (two_pow-suc i) ∙ sym (div-div-eq-div-mul w 2 (2 ^ i)) in
    ap (λ k. k % 2 == 1) e

has-half : (a b i : ℕ) → a / 2 ≡ b / 2 → has a (suc i) ≡ has b (suc i)
has-half a b i e = has-suc a i ∙ ap (λ k. has k i) e ∙ sym (has-suc b i)

-- The bit `i` is set and the others stay.
pub has-add : (i j w : ℕ) → has w i ≡ false → has (w + 2 ^ i) j ≡ (if i == j then true else has w j)
has-add zero zero w h = has-zero (w + 2 ^ 0) ∙ ground (arith, has-zero w, h)
has-add zero (suc j) w h =
    let e : (w + 2 ^ 0) / 2 ≡ w / 2 = ground (arith, has-zero w, h) in
    has-half (w + 2 ^ 0) w j e ∙ ground arith
has-add (suc i) zero w h =
    let e : (w + 2 ^ suc i) % 2 ≡ w % 2 = omega (arith, two_pow-suc i) in
    has-zero (w + 2 ^ suc i) ∙ ap (λ k. k == 1) e ∙ sym (has-zero w) ∙ ground arith
has-add (suc i) (suc j) w h =
    let e : (w + 2 ^ suc i) / 2 ≡ w / 2 + 2 ^ i = omega (arith, two_pow-suc i) in
    let same : (i == j) ≡ (suc i == suc j) = ground arith in
    has-suc (w + 2 ^ suc i) j
    ∙ ap (λ k. has k j) e
    ∙ has-add i j (w / 2) (sym (has-suc w i) ∙ h)
    ∙ ap (λ (b : Bool). if b then true else has (w / 2) j) same
    ∙ ap (λ (b : Bool). if suc i == suc j then true else b) (sym (has-suc w j))

has-le : (i w : ℕ) → has w i ≡ true → 2 ^ i ≤ w
has-le zero w h = ground (arith, has-zero w, h)
has-le (suc i) w h = omega (arith, two_pow-suc i, has-le i (w / 2) (sym (has-suc w i) ∙ h))

-- The bit `i` is cleared and the others stay.
pub has-sub : (i j w : ℕ) → has w i ≡ true → has (w - 2 ^ i) j ≡ (if i == j then false else has w j)
has-sub zero zero w h = has-zero (w - 2 ^ 0) ∙ ground (arith, has-zero w, h)
has-sub zero (suc j) w h =
    let e : (w - 2 ^ 0) / 2 ≡ w / 2 = ground (arith, has-zero w, h) in
    has-half (w - 2 ^ 0) w j e ∙ ground arith
has-sub (suc i) zero w h =
    let e : (w - 2 ^ suc i) % 2 ≡ w % 2 = omega (arith, two_pow-suc i, has-le (suc i) w h) in
    has-zero (w - 2 ^ suc i) ∙ ap (λ k. k == 1) e ∙ sym (has-zero w) ∙ ground arith
has-sub (suc i) (suc j) w h =
    let e : (w - 2 ^ suc i) / 2 ≡ w / 2 - 2 ^ i =
      omega (arith, two_pow-suc i, has-le (suc i) w h) in
    let same : (i == j) ≡ (suc i == suc j) = ground arith in
    has-suc (w - 2 ^ suc i) j
    ∙ ap (λ k. has k j) e
    ∙ has-sub i j (w / 2) (sym (has-suc w i) ∙ h)
    ∙ ap (λ (b : Bool). if b then false else has (w / 2) j) same
    ∙ ap (λ (b : Bool). if suc i == suc j then false else b) (sym (has-suc w j))
