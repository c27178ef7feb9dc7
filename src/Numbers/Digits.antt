-- ===== src/Numbers/Digits.antt =====
-- The digits that the loop of `to_strbuf` writes.
use pinyon.Prelude.{
  ℕ, zero, suc, ◌+◌, ◌-◌, ◌*◌, ◌/◌, ◌%◌, ◌^◌, ◌≤◌, ◌<◌, ◌≡◌, refl, sym, ap, ◌∙◌, ◌⊎◌, inl, inr,
  arith, ◌&&◌, true, ltb, List, [], ◌∷◌, ◌++◌, set, length, All,
}
use native.Mathlib.Nat.{pow-zero, pow-suc, mod-eq_of_lt, mod-lt, div-add-mod, div-lt_iff_lt-mul}
use pinyon.Math.{pow, log}
use pinyon.Math.Powers.{pow-mod}
use pinyon.Math.Quotients.{log_bounds, log_zero}
use pinyon.Numbers.{put_decimal, put_absnum}

-- The lowest `count` digits of a number, the highest first.
abbrev pub decimal : (count num : ℕ) → List ℕ
decimal zero num = []
decimal (suc count) num = (48 + num / 10 ^ count) ∷ decimal count (num % 10 ^ count)

-- The number that a text of digits stands for, after `acc`.
abbrev pub value_from : (acc : ℕ) → List ℕ → ℕ
value_from acc [] = acc
value_from acc (c ∷ cs) = value_from (acc * 10 + (c - 48)) cs

abbrev pub IsDigit : ℕ → Type 0
IsDigit c = (48 ≤ c) × (c < 58)

-- Bytes written one after another.
abbrev pub overwrite : List ℕ → (place : ℕ) → List ℕ → List ℕ
overwrite buf place [] = buf
overwrite buf place (c ∷ cs) = overwrite (set buf place c) (place + 1) cs

pow-pos : (k : ℕ) → 0 < 10 ^ k
pow-pos zero = omega (arith, pow-zero 10)
pow-pos (suc k) = omega (arith, pow-suc 10 k, pow-pos k)

pub length-decimal : (count num : ℕ) → length (decimal count num) ≡ count
length-decimal zero num = refl
length-decimal (suc count) num = ap suc (length-decimal count (num % 10 ^ count))

pub decimal-IsDigit : (count num : ℕ) → num < 10 ^ count → All IsDigit (decimal count num)
decimal-IsDigit zero num small = tt
decimal-IsDigit (suc count) num small =
    let high : num / 10 ^ count < 10 =
      (div-lt_iff_lt-mul (pow-pos count)).1 (omega (arith, small, pow-suc 10 count)) in
    (
      (omega arith, omega (arith, high)),
      decimal-IsDigit count (num % 10 ^ count) (mod-lt num (pow-pos count)),
    )

value-decimal :
    (count num acc : ℕ)
    → num < 10 ^ count
    → value_from acc (decimal count num) ≡ acc * 10 ^ count + num
value-decimal zero num acc small = omega (arith, ap (λ (t : ℕ). acc * t) (pow-zero 10), pow-zero 10)
value-decimal (suc count) num acc small =
    let digit = num / 10 ^ count in
    let plain : 48 + digit - 48 ≡ digit = omega arith in
    value-decimal count (num % 10 ^ count) (acc * 10 + (48 + digit - 48))
      (mod-lt num (pow-pos count))
    ∙ ap (λ (t : ℕ). (acc * 10 + t) * 10 ^ count + num % 10 ^ count) plain
    ∙ omega (arith, ap (λ (t : ℕ). acc * t) (pow-suc 10 count), div-add-mod num (10 ^ count))

pub value-decimal_whole :
    (count num : ℕ) → num < 10 ^ count → value_from 0 (decimal count num) ≡ num
value-decimal_whole count num small = value-decimal count num 0 small ∙ omega arith

-- A round takes the highest digit off.
remainder : (num count : ℕ) → num - num / 10 ^ count * 10 ^ count ≡ num % 10 ^ count
remainder num count = omega (arith, div-add-mod num (10 ^ count))

-- The loop writes the digits, while a power of ten does not overflow and the buffer has room.
pub put_decimal-overwrite :
    (left start position len bufsize num : ℕ) (buf : List ℕ)
    → position + left ≡ len
    → len ≤ bufsize
    → 10 ^ left < 10 * 2 ^ 32
    → put_decimal left start position len bufsize num buf
      ≡ overwrite buf (start + position) (decimal left num)
unfolding put_decimal
put_decimal-overwrite zero start position len bufsize num buf e room small = refl
put_decimal-overwrite (suc left) start position len bufsize num buf e room small =
    let exponent : len - position - 1 ≡ left = omega arith in
    let power : pow 32 10 left ≡ 10 ^ left =
      pow-mod 32 10 left (omega arith) (omega arith)
      ∙ mod-eq_of_lt (omega (arith, pow-suc 10 left)) in
    let go : (ltb position len && ltb position bufsize) ≡ true = ground arith in
    let next : start + (position + 1) ≡ start + position + 1 = omega arith in
    rw (go, exponent, power, remainder num left)
      (put_decimal-overwrite left start (position + 1) len bufsize (num % 10 ^ left)
          (set buf (start + position) (48 + num / 10 ^ left)) (omega arith) room
          (omega (arith, pow-suc 10 left, pow-pos left))
        ∙ ap
            (λ (p : ℕ).
              overwrite (set buf (start + position) (48 + num / 10 ^ left)) p
                (decimal left (num % 10 ^ left)))
            next)

set-overwrite :
    (buf cs : List ℕ) (place end c : ℕ)
    → end ≡ place + length cs
    → set (overwrite buf place cs) end c ≡ overwrite buf place (cs ++ (c ∷ []))
set-overwrite buf [] place end c e = ap (λ (p : ℕ). set buf p c) (e ∙ omega arith)
set-overwrite buf (x ∷ cs) place end c e =
    set-overwrite (set buf place x) cs (place + 1) end c (omega arith)

-- How many digits there are: all of the number, and no more than it has.
pub log-digits :
    (num : ℕ) → (num < 10 ^ suc (log 10 num)) × ((log 10 num ≡ 0) ⊎ (10 ^ log 10 num ≤ num))
log-digits zero =
    let z = log_zero 10 (omega arith) in (rw z omega (arith, pow-suc 10 0, pow-zero 10), inl z)
log-digits (suc n) =
    let (low, high) = log_bounds 10 (suc n) (omega arith) (omega arith) in (high, inr low)

pub put_absnum-overwrite :
    (start bufsize num : ℕ) (buf : List ℕ)
    → log 10 num < bufsize
    → num < 2 ^ 32
    → put_absnum start bufsize num buf
      ≡ overwrite buf start (decimal (suc (log 10 num)) num ++ (0 ∷ []))
unfolding put_absnum
put_absnum-overwrite start bufsize num buf room small =
    let count : log 10 num + 1 ≡ suc (log 10 num) = omega arith in
    let power : 10 ^ suc (log 10 num) < 10 * 2 ^ 32 = elim (log-digits num).1 [
      | inl z ↦ rw z omega (arith, pow-suc 10 0, pow-zero 10)
      | inr low ↦ omega (arith, low, small, pow-suc 10 (log 10 num))
    ] in
    let place : start + 0 ≡ start = omega arith in
    ap (λ (n : ℕ). set (put_decimal n start 0 n bufsize num buf) (start + n) 0) count
    ∙ ap (λ (b : List ℕ). set b (start + suc (log 10 num)) 0)
        (put_decimal-overwrite (suc (log 10 num)) start 0 (suc (log 10 num)) bufsize num buf
            (omega arith) (omega arith) power
          ∙ ap (λ (p : ℕ). overwrite buf p (decimal (suc (log 10 num)) num)) place)
    ∙ set-overwrite buf (decimal (suc (log 10 num)) num) start (start + suc (log 10 num)) 0
        (ap (λ (n : ℕ). start + n) (sym (length-decimal (suc (log 10 num)) num)))
