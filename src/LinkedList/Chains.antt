-- ===== src/LinkedList/Chains.antt =====
-- What a list in memory represents.
use pinyon.Prelude.{
  ℕ, ◌<◌, ◌≡◌, refl, ap, ◌∙◌, ◌⊎◌, inl, inr, arith, false, ◌==◌, List, [], ◌∷◌, length, All, In,
}
use pinyon.LinkedList.{ManualLinkedList}

-- The first and the last node, or what stands for them in the empty list.
abbrev pub first_or : ℕ → List ℕ → ℕ
first_or p [] = p
first_or p (x ∷ xs) = x

abbrev pub last_or : ℕ → List ℕ → ℕ
last_or p [] = p
last_or p (x ∷ xs) = last_or x xs

abbrev pub IsOff : ℕ → List ℕ → Type 0
IsOff p = All (λ x. (x == p) ≡ false)

-- Each node is not null and stands once.
abbrev pub IsDistinct : List ℕ → Type 0
IsDistinct [] = Unit
IsDistinct (x ∷ xs) = (0 < x) × IsOff x xs × IsDistinct xs

-- The nodes are linked in both directions, the first behind `before` and the last to null.
abbrev pub IsLinked : (next prev : ℕ → ℕ) → (before : ℕ) → List ℕ → Type 0
IsLinked next prev before [] = Unit
IsLinked next prev before (x ∷ xs) =
    (prev x ≡ before) × (next x ≡ first_or 0 xs) × IsLinked next prev x xs

pub record Represents (l : ManualLinkedList) (xs : List ℕ) : Type 0 where
  pub linked : IsLinked l.next l.prev 0 xs
  pub distinct : IsDistinct xs
  pub at_head : l.head ≡ first_or 0 xs
  pub at_tail : l.tail ≡ last_or 0 xs
  pub counted : l.length ≡ length xs

-- The links survive a change elsewhere.
pub IsLinked-frame :
    (next prev next' prev' : ℕ → ℕ) (before : ℕ) (xs : List ℕ)
    → IsLinked next prev before xs
    → All (λ x. (next' x ≡ next x) × (prev' x ≡ prev x)) xs
    → IsLinked next' prev' before xs
IsLinked-frame next prev next' prev' before [] l same = tt
IsLinked-frame next prev next' prev' before (x ∷ xs) (p, n, l) ((sn, sp), same) =
    (sp ∙ p, sn ∙ n, IsLinked-frame next prev next' prev' x xs l same)

-- ... also where the first node is put behind another.
pub IsLinked-relink :
    (next prev next' prev' : ℕ → ℕ) (before before' : ℕ) (xs : List ℕ)
    → IsLinked next prev before xs
    → IsDistinct xs
    → All (λ x. next' x ≡ next x) xs
    → ((x : ℕ) → (x == first_or 0 xs) ≡ false → In x xs → prev' x ≡ prev x)
    → (0 < first_or 0 xs → prev' (first_or 0 xs) ≡ before')
    → IsLinked next' prev' before' xs
IsLinked-relink next prev next' prev' before before' [] l d sn sp at = tt
IsLinked-relink next prev next' prev' before before' (x ∷ xs) (p, n, l) (pos, off, d) (s, sn) sp
      at =
    (
      at pos,
      s ∙ n,
      IsLinked-frame next prev next' prev' x xs l (both xs off sn (λ y o i. sp y o (inr i))),
    )
  where
    both :
        (ys : List ℕ)
        → IsOff x ys
        → All (λ y. next' y ≡ next y) ys
        → ((y : ℕ) → (y == x) ≡ false → In y ys → prev' y ≡ prev y)
        → All (λ y. (next' y ≡ next y) × (prev' y ≡ prev y)) ys
    both [] off sn sp = tt
    both (y ∷ ys) (o, off) (s, sn) sp =
        ((s, sp y o (inl refl)), both ys off sn (λ z o' i. sp z o' (inr i)))

pub All-intro : {P : ℕ → Type 0} (xs : List ℕ) → ((x : ℕ) → In x xs → P x) → All P xs
All-intro [] h = tt
All-intro (x ∷ xs) h = (h x (inl refl), All-intro xs (λ y i. h y (inr i)))

pub IsOff-In : (p x : ℕ) (xs : List ℕ) → IsOff p xs → In x xs → (x == p) ≡ false
IsOff-In p x [] o i = absurd i
IsOff-In p x (y ∷ ys) (o, os) (inl e) = ground (arith, e, o)
IsOff-In p x (y ∷ ys) (o, os) (inr i) = IsOff-In p x ys os i

pub ==_swap : (a b : ℕ) → (a == b) ≡ false → (b == a) ≡ false
==_swap a b e = ground (arith, e)

pub first_or-In : (xs : List ℕ) → 0 < first_or 0 xs → In (first_or 0 xs) xs
first_or-In [] h = absurd (omega (arith, h))
first_or-In (x ∷ xs) h = inl refl

pub In-pos : (x : ℕ) (xs : List ℕ) → IsDistinct xs → In x xs → 0 < x
In-pos x [] d i = absurd i
In-pos x (y ∷ ys) (pos, off, d) (inl e) = omega (arith, e, pos)
In-pos x (y ∷ ys) (pos, off, d) (inr i) = In-pos x ys d i

pub last_or-In : (x : ℕ) (xs : List ℕ) → In (last_or x xs) (x ∷ xs)
last_or-In x [] = inl refl
last_or-In x (y ∷ ys) = inr (last_or-In y ys)

pub next-In :
    (next prev : ℕ → ℕ) (before p : ℕ) (xs : List ℕ)
    → IsLinked next prev before xs
    → In p xs
    → (next p ≡ 0) ⊎ In (next p) xs
next-In next prev before p [] l i = absurd i
next-In next prev before p (x ∷ xs) (_, n, l) (inl e) = tail xs (ap next e ∙ n)
  where
    tail : (ys : List ℕ) → next p ≡ first_or 0 ys → (next p ≡ 0) ⊎ In (next p) (x ∷ ys)
    tail [] h = inl h
    tail (y ∷ ys) h = inr (inr (inl h))
next-In next prev before p (x ∷ xs) (_, n, l) (inr i) = elim (next-In next prev x p xs l i) [
  | inl z ↦ inl z
  | inr j ↦ inr (inr j)
]

pub not_zero : (k : ℕ) → 0 < k → (k == 0) ≡ false
not_zero k h = ground arith

pub not_next : (z : ℕ) (xs : List ℕ) → 0 < z → IsOff z xs → (z == first_or 0 xs) ≡ false
not_next z [] pos o = ground (arith, pos)
not_next z (x ∷ xs) pos o = ==_swap x z o.0
