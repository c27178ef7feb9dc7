-- ===== src/Strings/Compare.antt =====
-- When `strcmp` is 0.
use pinyon.Prelude.{
  ℕ, ◌<◌, ◌≡◌, ◌≢◌, ◌↔◌, refl, ap, arith, Bool, true, false, ◌&&◌, ltb, ◌==◌, Bool-cases, some,
  List, [], ◌∷◌, ◌++◌, length, All, inl, inr,
}
use pinyon.Files.{ℤ, pos, negsuc}
use pinyon.Strings.{strlen, strcmp}

-- The chars of a string, none of them the terminator.
abbrev pub IsText : List ℕ → Type 0
IsText = All (λ c. 0 < c)

abbrev same_chars : List ℕ → List ℕ → Bool
same_chars [] [] = true
same_chars [] (b ∷ ds) = false
same_chars (a ∷ cs) [] = false
same_chars (a ∷ cs) (b ∷ ds) = a == b && same_chars cs ds

same_chars→≡ : (cs ds : List ℕ) → same_chars cs ds ≡ true → cs ≡ ds
same_chars→≡ [] [] e = refl
same_chars→≡ [] (b ∷ ds) e = cc
same_chars→≡ (a ∷ cs) [] e = cc
same_chars→≡ (a ∷ cs) (b ∷ ds) e =
    let here : a ≡ b = ground (arith, e) in let there = same_chars→≡ cs ds (ground (arith, e)) in cc

same_chars_self : (cs : List ℕ) → same_chars cs cs ≡ true
same_chars_self [] = refl
same_chars_self (a ∷ cs) = ground (arith, same_chars_self cs)

-- On terminated strings `strcmp` returns, and 0 just for the same chars.
strcmp-result :
    (cs ds x y : List ℕ)
    → IsText cs
    → IsText ds
    → (r : ℤ) × (strcmp (cs ++ (0 ∷ x)) (ds ++ (0 ∷ y)) ≡ some r)
      × (same_chars cs ds ≡ true → r ≡ pos 0)
      × (same_chars cs ds ≡ false → r ≢ pos 0)
unfolding strcmp
strcmp-result [] [] x y p q = (pos 0, refl, λ e. refl, λ e. cc)
strcmp-result [] (b ∷ ds) x y p (q, qs) = (pos 1, ground (arith, q), λ e. cc, λ e f. cc)
strcmp-result (a ∷ cs) [] x y (p, ps) q = (pos 1, ground (arith, p), λ e. cc, λ e f. cc)
strcmp-result (a ∷ cs) (b ∷ ds) x y (p, ps) (q, qs) = elim (Bool-cases (ltb b a)) [
  | inl above ↦
      (pos 1, ground (arith, p, q, above), λ e. absurd (ground (arith, e, above)), λ e f. cc)
  | inr other ↦ elim (Bool-cases (ltb a b)) [
    | inl below ↦ (
      negsuc 0,
      ground (arith, p, q, other, below),
      λ e. absurd (ground (arith, e, below)),
      λ e f. cc,
    )
    | inr level ↦
        let (r, run, yes', no') = strcmp-result cs ds x y ps qs in
        let here : (a == b) ≡ true = ground (arith, other, level) in
        (
          r,
          ground (arith, p, q, other, level, run),
          λ e. yes' (ground (arith, e)),
          λ e. no' (ground (arith, e, here)),
        )
  ]
]

-- On two terminated strings `strcmp` returns, and the result is 0 just when their chars are the same.
pub strcmp-same :
    (cs ds x y : List ℕ)
    → IsText cs
    → IsText ds
    → (r : ℤ) × (strcmp (cs ++ (0 ∷ x)) (ds ++ (0 ∷ y)) ≡ some r) × ((r ≡ pos 0) ↔ (cs ≡ ds))
strcmp-same cs ds x y p q =
    let (r, run, yes', no') = strcmp-result cs ds x y p q in
    elim (Bool-cases (same_chars cs ds)) [
      | inl same ↦ (r, run, (λ e. same_chars→≡ cs ds same, λ e. yes' same))
      | inr other ↦
          (r, run, (λ e. absurd (no' other e), λ e. absurd (differ (ap (same_chars cs) e) other)))
    ]
  where
    differ : same_chars cs cs ≡ same_chars cs ds → same_chars cs ds ≡ false → ⊥
    differ e f = let g = same_chars_self cs in cc

-- `strcmp` of a string and a longer one that starts with it is 1 in both orders.
pub strcmp-prefix :
    (cs x y : List ℕ) (d : ℕ) (ds : List ℕ)
    → IsText cs
    → 0 < d
    → (strcmp (cs ++ (0 ∷ x)) (cs ++ (d ∷ ds ++ (0 ∷ y))) ≡ some (pos 1))
      × (strcmp (cs ++ (d ∷ ds ++ (0 ∷ y))) (cs ++ (0 ∷ x)) ≡ some (pos 1))
unfolding strcmp
strcmp-prefix [] x y d ds p h = (ground (arith, h), ground (arith, h))
strcmp-prefix (c ∷ cs) x y d ds (p, ps) h =
    let (one, other) = strcmp-prefix cs x y d ds ps h in
    (ground (arith, p, one), ground (arith, p, other))

-- `strlen` of a terminated string is the number of its chars.
pub strlen-text : (cs x : List ℕ) → IsText cs → strlen (cs ++ (0 ∷ x)) ≡ some (length cs)
unfolding strlen
strlen-text [] x p = refl
strlen-text (c ∷ cs) x (p, ps) = ground (arith, p, strlen-text cs x ps)
