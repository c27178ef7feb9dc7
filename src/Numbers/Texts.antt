-- ===== src/Numbers/Texts.antt =====
-- The texts that `to_strbuf` leaves in the buffer.
use pinyon.Prelude.{
  ℕ, zero, suc, ◌+◌, ◌-◌, ◌^◌, ◌≤◌, ◌<◌, ◌≡◌, refl, ap, ◌∙◌, ◌⊎◌, inl, inr, arith, false, ltb,
  ltb→lt, ltb→le, Bool-cases, ◌==◌, Option, some, List, [], ◌∷◌, ◌++◌, set, length, length-append,
  All,
}
use native.Mathlib.Nat.{pow-suc}
use pinyon.Math.{log}
use pinyon.Files.{ℤ, pos, negsuc}
use pinyon.Numbers.{to_strbuf, to_strbuf_signed, put_absnum}
use pinyon.Numbers.Digits.{
  decimal, value_from, IsDigit, overwrite, length-decimal, decimal-IsDigit, value-decimal_whole,
  log-digits, put_absnum-overwrite,
}

-- The shortest text of digits of a number.
pub record IsNumeral (num : ℕ) (text : List ℕ) : Type 0 where
  pub digits : All IsDigit text
  pub value : value_from 0 text ≡ num
  pub short : (length text ≡ 1) ⊎ (10 ^ (length text - 1) ≤ num)

-- The text of an integer: a minus sign and a numeral, or a numeral.
abbrev pub IsIntText : ℤ → List ℕ → Type 0
IsIntText (pos n) text = IsNumeral n text
IsIntText (negsuc n) text = (digits : List ℕ) × (text ≡ 45 ∷ digits) × IsNumeral (suc n) digits

-- A text with its terminator at the front of a buffer whose length is kept.
abbrev pub Holds : (buf : List ℕ) (text : List ℕ) → List ℕ → Type 0
Holds buf text result =
    (rest : List ℕ) × (result ≡ text ++ (0 ∷ rest)) × (length result ≡ length buf)

abbrev drop : ℕ → List ℕ → List ℕ
drop zero buf = buf
drop (suc n) [] = []
drop (suc n) (b ∷ buf) = drop n buf

length-drop : (n : ℕ) (buf : List ℕ) → n ≤ length buf → n + length (drop n buf) ≡ length buf
length-drop zero buf room = omega arith
length-drop (suc n) [] room = absurd (omega arith)
length-drop (suc n) (b ∷ buf) room = omega (arith, length-drop n buf (omega arith))

overwrite-cons :
    (b : ℕ) (buf cs : List ℕ) (place : ℕ)
    → overwrite (b ∷ buf) (place + 1) cs ≡ b ∷ overwrite buf place cs
overwrite-cons b buf [] place = refl
overwrite-cons b buf (c ∷ cs) place =
    let s : place + 1 ≡ suc place = omega arith in
    ap (λ (p : ℕ). overwrite (set (b ∷ buf) p c) (place + 1 + 1) cs) s
    ∙ overwrite-cons b (set buf place c) cs (place + 1)

overwrite-front :
    (buf cs : List ℕ) → length cs ≤ length buf → overwrite buf 0 cs ≡ cs ++ drop (length cs) buf
overwrite-front buf [] room = refl
overwrite-front [] (c ∷ cs) room = absurd (omega arith)
overwrite-front (b ∷ buf) (c ∷ cs) room =
    overwrite-cons c buf cs 0 ∙ ap (λ (t : List ℕ). c ∷ t) (overwrite-front buf cs (omega arith))

append-terminator : (text rest : List ℕ) → (text ++ (0 ∷ [])) ++ rest ≡ text ++ (0 ∷ rest)
append-terminator [] rest = refl
append-terminator (c ∷ text) rest = ap (λ (t : List ℕ). c ∷ t) (append-terminator text rest)

overwrite-Holds :
    (buf text : List ℕ)
    → length text < length buf
    → Holds buf text (overwrite buf 0 (text ++ (0 ∷ [])))
overwrite-Holds buf text room =
    let len : length (text ++ (0 ∷ [])) ≡ suc (length text) =
      length-append text (0 ∷ []) ∙ omega arith in
    let n = length (text ++ (0 ∷ [])) in
    let e = overwrite-front buf (text ++ (0 ∷ [])) (omega (arith, len)) in
    (
      drop n buf,
      e ∙ append-terminator text (drop n buf),
      ap length e
          ∙ length-append (text ++ (0 ∷ [])) (drop n buf)
          ∙ length-drop n buf (omega (arith, len)),
    )

power_10 : (j : ℕ) → 10 ^ 10 ≤ 10 ^ (10 + j)
power_10 zero = omega arith
power_10 (suc j) =
    let e : 10 + suc j ≡ suc (10 + j) = omega arith in
    rw e omega (arith, pow-suc 10 (10 + j), power_10 j)

-- A 32-bit number has at most ten digits.
log-word : (num : ℕ) → num < 2 ^ 32 → log 10 num < 10
log-word num small = elim (log-digits num).1 [
  | inl z ↦ omega (arith, z)
  | inr low ↦ elim (Bool-cases (ltb (log 10 num) 10)) [
    | inl few ↦ ltb→lt (log 10 num) 10 few
    | inr many ↦
        let e : 10 + (log 10 num - 10) ≡ log 10 num = omega (arith, ltb→le (log 10 num) 10 many) in
        absurd omega (arith, low, power_10 (log 10 num - 10), ap (λ (k : ℕ). 10 ^ k) e)
  ]
]

abbrev pub text_of : ℕ → List ℕ
text_of num = decimal (suc (log 10 num)) num

pub text_of-IsNumeral : (num : ℕ) → IsNumeral num (text_of num)
text_of-IsNumeral num =
    let (high, low) = log-digits num in
    let len : length (text_of num) - 1 ≡ log 10 num =
      omega (arith, length-decimal (suc (log 10 num)) num) in
    record {
      digits = decimal-IsDigit (suc (log 10 num)) num high;
      value = value-decimal_whole (suc (log 10 num)) num high;
      short = elim low [
        | inl z ↦ inl (omega (arith, length-decimal (suc (log 10 num)) num, z))
        | inr le ↦ inr (omega (arith, le, ap (λ (k : ℕ). 10 ^ k) len))
      ];
    }

put_absnum-Holds :
    (bufsize num : ℕ) (buf : List ℕ)
    → 10 < bufsize
    → bufsize ≤ length buf
    → num < 2 ^ 32
    → Holds buf (text_of num) (put_absnum 0 bufsize num buf)
put_absnum-Holds bufsize num buf room inside small =
    let few = log-word num small in
    let done = put_absnum-overwrite 0 bufsize num buf (omega arith) small in
    let len = length-decimal (suc (log 10 num)) num in
    let (rest, e, same) = overwrite-Holds buf (text_of num) (omega (arith, len, few)) in
    (rest, done ∙ e, ap length done ∙ same)

-- The outcome for an unsigned number.
pub data Formatted (buf : List ℕ) (bufsize num : ℕ) (result : List ℕ) : Type 0 where
  too_small : bufsize < 11 → result ≡ buf → Formatted buf bufsize num result
  formatted :
      (text : List ℕ)
      → 11 ≤ bufsize
      → IsNumeral num text
      → Holds buf text result
      → Formatted buf bufsize num result

-- For a number of the word and a buffer of at least `bufsize` bytes, `to_strbuf` leaves the buffer alone
-- if `bufsize` is below 11. Otherwise the buffer starts with the shortest decimal text of the number and
-- a terminator, and is as long as before.
pub to_strbuf-Formatted :
    (buf : List ℕ) (bufsize num : ℕ)
    → bufsize ≤ length buf
    → num < 2 ^ 32
    → Formatted buf bufsize num (to_strbuf buf bufsize num)
unfolding to_strbuf
to_strbuf-Formatted buf bufsize num inside small = elim (Bool-cases (ltb bufsize 11)) [
  | inl few ↦ too_small (ltb→lt bufsize 11 few) (rw few refl)
  | inr room ↦
      let enough = ltb→le bufsize 11 room in
      formatted (text_of num) enough (text_of-IsNumeral num)
        (rw room (put_absnum-Holds bufsize num buf (omega (arith, enough)) inside small))
]

-- The outcome for an integer.
pub data FormattedInt (buf : List ℕ) (bufsize : ℕ) (num : ℤ) (result : Option (List ℕ))
    : Type 0 where
  too_small : bufsize < 12 → result ≡ some buf → FormattedInt buf bufsize num result
  formatted :
      (text result' : List ℕ)
      → 12 ≤ bufsize
      → result ≡ some result'
      → IsIntText num text
      → Holds buf text result'
      → FormattedInt buf bufsize num result

abbrev pub IsInt : ℤ → Type 0
IsInt (pos n) = n < 2 ^ 31
IsInt (negsuc n) = n + 1 < 2 ^ 31

negated-Holds :
    (buf : List ℕ) (bufsize n : ℕ)
    → 11 < bufsize
    → bufsize ≤ length buf
    → n + 1 < 2 ^ 31
    → Holds buf (45 ∷ text_of (suc n)) (put_absnum 1 (bufsize - 1) (n + 1) (set buf 0 45))
negated-Holds [] bufsize n room inside small = absurd (omega arith)
negated-Holds (b ∷ buf) bufsize n room inside small =
    let e : n + 1 ≡ suc n = omega arith in
    let cs = text_of (suc n) ++ (0 ∷ []) in
    let few = log-word (suc n) (omega arith) in
    let len = length-decimal (suc (log 10 (suc n))) (suc n) in
    let (rest, whole, same) = overwrite-Holds buf (text_of (suc n)) (omega (arith, len, few)) in
    let done : put_absnum 1 (bufsize - 1) (n + 1) (45 ∷ buf) ≡ 45 ∷ overwrite buf 0 cs =
      ap (λ (m : ℕ). put_absnum 1 (bufsize - 1) m (45 ∷ buf)) e
      ∙ put_absnum-overwrite 1 (bufsize - 1) (suc n) (45 ∷ buf) (omega (arith, few)) (omega arith)
      ∙ overwrite-cons 45 buf cs 0 in
    (rest, done ∙ ap (λ (t : List ℕ). 45 ∷ t) whole, ap length done ∙ ap suc same)

pub to_strbuf-Holds :
    (buf : List ℕ) (bufsize num : ℕ)
    → 10 < bufsize
    → bufsize ≤ length buf
    → num < 2 ^ 32
    → Holds buf (text_of num) (to_strbuf buf bufsize num)
unfolding to_strbuf
to_strbuf-Holds buf bufsize num room inside small =
    let enough : ltb bufsize 11 ≡ false = ground (arith, room) in
    rw enough (put_absnum-Holds bufsize num buf room inside small)

pub to_strbuf_signed-pos :
    (buf : List ℕ) (bufsize n : ℕ)
    → 11 < bufsize
    → bufsize ≤ length buf
    → n < 2 ^ 31
    → (rest : List ℕ) × (to_strbuf_signed buf bufsize (pos n) ≡ some (text_of n ++ (0 ∷ rest)))
unfolding to_strbuf_signed
to_strbuf_signed-pos buf bufsize n room inside small =
    let enough : ltb bufsize 12 ≡ false = ground (arith, room) in
    let (rest, e, _) = put_absnum-Holds bufsize n buf (omega (arith, room)) inside (omega arith) in
    (rest, rw (enough, e) refl)

pub to_strbuf_signed-negsuc :
    (buf : List ℕ) (bufsize n : ℕ)
    → 11 < bufsize
    → bufsize ≤ length buf
    → n + 1 < 2 ^ 31
    → (rest : List ℕ) × (to_strbuf_signed buf bufsize (negsuc n)
        ≡ some ((45 ∷ text_of (suc n)) ++ (0 ∷ rest)))
unfolding to_strbuf_signed
to_strbuf_signed-negsuc buf bufsize n room inside small =
    let enough : ltb bufsize 12 ≡ false = ground (arith, room) in
    let least : (n + 1 == 2 ^ 31) ≡ false = ground (arith, small) in
    let (rest, e, _) = negated-Holds buf bufsize n room inside small in
    (rest, rw (enough, least, e) refl)

-- For a 32-bit integer above the least and a buffer of at least `bufsize` bytes, the buffer is left
-- alone if `bufsize` is below 12. Otherwise it starts with the integer's shortest decimal text, after a
-- minus sign if it is negative, and a terminator, and is as long as before.
pub to_strbuf_signed-FormattedInt :
    (buf : List ℕ) (bufsize : ℕ) (num : ℤ)
    → bufsize ≤ length buf
    → IsInt num
    → FormattedInt buf bufsize num (to_strbuf_signed buf bufsize num)
unfolding to_strbuf_signed
to_strbuf_signed-FormattedInt buf bufsize (pos n) inside small =
    elim (Bool-cases (ltb bufsize 12)) [
      | inl few ↦ too_small (ltb→lt bufsize 12 few) (rw few refl)
      | inr room ↦
          let enough = ltb→le bufsize 12 room in
          formatted (text_of n) (put_absnum 0 bufsize n buf) enough (rw room refl)
            (text_of-IsNumeral n)
            (put_absnum-Holds bufsize n buf (omega (arith, enough)) inside (omega arith))
    ]
to_strbuf_signed-FormattedInt buf bufsize (negsuc n) inside small =
    let least : (n + 1 == 2 ^ 31) ≡ false = ground (arith, small) in
    elim (Bool-cases (ltb bufsize 12)) [
      | inl few ↦ too_small (ltb→lt bufsize 12 few) (rw few refl)
      | inr room ↦
          let enough = ltb→le bufsize 12 room in
          formatted (45 ∷ text_of (suc n)) (put_absnum 1 (bufsize - 1) (n + 1) (set buf 0 45))
            enough (rw (room, least) refl) (text_of (suc n), refl, text_of-IsNumeral (suc n))
            (negated-Holds buf bufsize n (omega (arith, enough)) inside small)
    ]
