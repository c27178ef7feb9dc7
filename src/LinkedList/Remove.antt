-- ===== src/LinkedList/Remove.antt =====
-- `remove` does on memory what removal does on the sequence.
use pinyon.Prelude.{
  ℕ, suc, ◌<◌, ◌≡◌, refl, sym, ap, subst, ◌∙◌, ◌⊎◌, inl, inr, arith, true, false, ◌==◌, ==_iff,
  Bool-cases, if◌then◌else◌, List, [], ◌∷◌, length, In,
}
use pinyon.LinkedList.{ManualLinkedList, word, update, destroy, remove}
use pinyon.LinkedList.Chains.{
  first_or, last_or, IsOff, IsDistinct, IsLinked, Represents, IsLinked-relink, All-intro, IsOff-In,
  ==_swap, In-pos, last_or-In, not_zero, next-In,
}

-- The sequence without `p`.
abbrev pub removed : ℕ → List ℕ → List ℕ
removed p [] = []
removed p (x ∷ xs) = if x == p then xs else x ∷ removed p xs

abbrev next_without : (next prev : ℕ → ℕ) (p : ℕ) → ℕ → ℕ
next_without next prev p =
    if prev p == 0 then update next p 0 else update (update next p 0) (prev p) (next p)

abbrev prev_without : (next prev : ℕ → ℕ) (p : ℕ) → ℕ → ℕ
prev_without next prev p =
    if next p == 0 then update prev p 0 else update (update prev p 0) (next p) (prev p)

prev-In :
    (next prev : ℕ → ℕ) (before p : ℕ) (xs : List ℕ)
    → IsLinked next prev before xs
    → In p xs
    → In (prev p) (before ∷ xs)
prev-In next prev before p [] l i = absurd i
prev-In next prev before p (x ∷ xs) (b, n, l) (inl e) = inl (ap prev e ∙ b)
prev-In next prev before p (x ∷ xs) (b, n, l) (inr i) = inr (prev-In next prev x p xs l i)

module _ (next prev : ℕ → ℕ) (p : ℕ) where
  next_without-prev : 0 < prev p → next_without next prev p (prev p) ≡ next p
  next_without-prev h = ground (arith, h)

  next_without-other :
      (y : ℕ) → (y == p) ≡ false → (y == prev p) ≡ false → next_without next prev p y ≡ next y
  next_without-other y a b = ground (arith, a, b)

  prev_without-next : 0 < next p → prev_without next prev p (next p) ≡ prev p
  prev_without-next h = ground (arith, h)

  prev_without-other :
      (y : ℕ) → (y == p) ≡ false → (y == next p) ≡ false → prev_without next prev p y ≡ prev y
  prev_without-other y a b = ground (arith, a, b)

  -- What stands before a list: null, or a node outside.
  abbrev IsBefore : ℕ → List ℕ → Type 0
  IsBefore before xs = (before ≡ 0) ⊎ ((0 < before) × IsOff before xs)

  not_before :
      (before y : ℕ) (xs : List ℕ)
      → IsBefore before xs
      → IsDistinct xs
      → In y xs
      → (y == before) ≡ false
  not_before before y xs (inl e) d i = ap (λ k. y == k) e ∙ not_zero y (In-pos y xs d i)
  not_before before y xs (inr (pos, off)) d i = IsOff-In before y xs off i

  IsLinked-removed :
      (before : ℕ) (xs : List ℕ)
      → IsLinked next prev before xs
      → IsDistinct xs
      → IsBefore before xs
      → In p xs
      → IsLinked (next_without next prev p) (prev_without next prev p) before (removed p xs)
  IsLinked-removed before [] l d w i = absurd i
  IsLinked-removed before (x ∷ xs) (b, n, l) (px, off, d) w i = elim (Bool-cases (x == p)) [
    | inl here ↦
        let e : x ≡ p = (==_iff x p).0 here in
        let np : next p ≡ first_or 0 xs = ap next (sym e) ∙ n in
        let pp : prev p ≡ before = ap prev (sym e) ∙ b in
        rw here (
          IsLinked-relink next prev _ _ x before xs l d
            (All-intro xs (λ y j.
              next_without-other y (rest y e j)
                (ap (λ k. y == k) pp ∙ not_before before y (x ∷ xs) w (px, off, d) (inr j))))
            (λ y f j. prev_without-other y (rest y e j) (ap (λ k. y == k) np ∙ f))
            (λ f.
              subst (λ k. prev_without next prev p k ≡ before) np
                (prev_without-next (subst (λ k. 0 < k) (sym np) f) ∙ pp)))
    | inr other ↦
        let j = later i other in
        let far : (x == next p) ≡ false = away (next-In next prev x p xs l j) in
        rw other (
          prev_without-other x other far ∙ b,
          ahead xs l d off j n,
          IsLinked-removed x xs l d (inr (px, off)) j,
        )
  ]
    where
      rest : (y : ℕ) → x ≡ p → In y xs → (y == p) ≡ false
      rest y e j = ap (λ k. y == k) (sym e) ∙ IsOff-In x y xs off j

      later : In p (x ∷ xs) → (x == p) ≡ false → In p xs
      later (inl e) h = absurd (ground (arith, e, h))
      later (inr j) h = j

      away : (next p ≡ 0) ⊎ In (next p) xs → (x == next p) ≡ false
      away (inl z) = ap (λ k. x == k) z ∙ not_zero x px
      away (inr j) = ==_swap (next p) x (IsOff-In x (next p) xs off j)

      later' : (y : ℕ) (ys : List ℕ) → In p (y ∷ ys) → (y == p) ≡ false → In p ys
      later' y ys (inl e) h = absurd (ground (arith, e, h))
      later' y ys (inr j) h = j

      ahead :
          (ys : List ℕ)
          → IsLinked next prev x ys
          → IsDistinct ys
          → IsOff x ys
          → In p ys
          → next x ≡ first_or 0 ys
          → next_without next prev p x ≡ first_or 0 (removed p ys)
      ahead [] l d o j n = absurd j
      ahead (y ∷ ys) (b', n', l') d (o, os) j n = elim (Bool-cases (y == p)) [
        | inl here ↦
            let e : y ≡ p = (==_iff y p).0 here in
            let pp : prev p ≡ x = ap prev (sym e) ∙ b' in
            rw here (
              subst (λ k. next_without next prev p k ≡ first_or 0 ys) pp
                (next_without-prev (subst (λ k. 0 < k) (sym pp) px) ∙ ap next (sym e) ∙ n'))
        | inr other' ↦ rw other' (
            next_without-other x (==_swap p x (IsOff-In x p (y ∷ ys) (o, os) j)) (
              ==_swap (prev p) x (
                IsOff-In x (prev p) (y ∷ ys) (o, os)
                  (prev-In next prev y p ys l' (later' y ys j other'))))
            ∙ n)
      ]

IsOff-removed : (y p : ℕ) (xs : List ℕ) → IsOff y xs → IsOff y (removed p xs)
IsOff-removed y p [] o = tt
IsOff-removed y p (x ∷ xs) (o, os) = elim (Bool-cases (x == p)) [
  | inl h ↦ rw h os
  | inr h ↦ rw h (o, IsOff-removed y p xs os)
]

IsDistinct-removed : (p : ℕ) (xs : List ℕ) → IsDistinct xs → IsDistinct (removed p xs)
IsDistinct-removed p [] d = tt
IsDistinct-removed p (x ∷ xs) (px, off, d) = elim (Bool-cases (x == p)) [
  | inl h ↦ rw h d
  | inr h ↦ rw h (px, IsOff-removed x p xs off, IsDistinct-removed p xs d)
]

In-rest : (p x : ℕ) (xs : List ℕ) → In p (x ∷ xs) → (x == p) ≡ false → In p xs
In-rest p x xs (inl e) h = absurd (ground (arith, e, h))
In-rest p x xs (inr j) h = j

length-removed : (p : ℕ) (xs : List ℕ) → In p xs → suc (length (removed p xs)) ≡ length xs
length-removed p [] i = absurd i
length-removed p (x ∷ xs) i = elim (Bool-cases (x == p)) [
  | inl h ↦ rw h refl
  | inr h ↦ rw h (ap suc (length-removed p xs (In-rest p x xs i h)))
]

module _ (next prev : ℕ → ℕ) (p : ℕ) where
  first_or-removed :
      (before : ℕ) (xs : List ℕ)
      → IsLinked next prev before xs
      → In p xs
      → first_or 0 (removed p xs) ≡ (if p == first_or 0 xs then next p else first_or 0 xs)
  first_or-removed before [] l i = absurd i
  first_or-removed before (x ∷ xs) (b, n, l) i = elim (Bool-cases (x == p)) [
    | inl h ↦
        let e : x ≡ p = (==_iff x p).0 h in
        let h' : (p == x) ≡ true = ground (arith, e) in rw (h, h') (sym n ∙ ap next e)
    | inr h ↦ rw (h, ==_swap x p h) refl
  ]

  last_or-removed :
      (before : ℕ) (xs : List ℕ)
      → IsLinked next prev before xs
      → IsDistinct xs
      → In p xs
      → last_or before (removed p xs)
        ≡ (if p == last_or before xs then prev p else last_or before xs)
  last_or-removed before [] l d i = absurd i
  last_or-removed before (x ∷ xs) (b, n, l) (px, off, d) i = elim (Bool-cases (x == p)) [
    | inl h ↦ rw h (at xs ((==_iff x p).0 h) off)
    | inr h ↦ rw h (last_or-removed x xs l d (In-rest p x xs i h))
  ]
    where
      at :
          (ys : List ℕ)
          → x ≡ p
          → IsOff x ys
          → last_or before ys ≡ (if p == last_or x ys then prev p else last_or x ys)
      at [] e o = let h : (p == x) ≡ true = ground (arith, e) in rw h (sym b ∙ ap prev e)
      at (y ∷ ys) e o =
          let h : (last_or y ys == p) ≡ false =
            ap (λ k. last_or y ys == k) (sym e)
            ∙ IsOff-In x (last_or y ys) (y ∷ ys) o (last_or-In y ys) in
          rw (==_swap (last_or y ys) p h) refl

  next-last :
      (before : ℕ) (xs : List ℕ)
      → IsLinked next prev before xs
      → IsDistinct xs
      → In p xs
      → p ≡ last_or before xs
      → next p ≡ 0
  next-last before [] l d i e = absurd i
  next-last before (x ∷ []) (b, n, l) d i e = ap next e ∙ n
  next-last before (x ∷ y ∷ ys) (b, n, l) (px, off, d) i e =
      next-last x (y ∷ ys) l d (subst (λ k. In k (y ∷ ys)) (sym e) (last_or-In y ys)) e

-- The node of a list that represents a sequence is unlinked and its pointers become null; the list
-- represents the sequence without it.
pub remove-removed :
    (l : ManualLinkedList) (xs : List ℕ) (p : ℕ)
    → Represents l xs
    → length xs < word
    → In p xs
    → Represents (remove p l) (removed p xs)
unfolding remove destroy
remove-removed l xs p r room i = record {
  linked = IsLinked-removed l.next l.prev p 0 xs r.linked r.distinct (inl refl) i;
  distinct = IsDistinct-removed p xs r.distinct;
  at_head =
      ap (λ k. if p == k then l.next p else k) r.at_head
      ∙ sym (first_or-removed l.next l.prev p 0 xs r.linked i);
  at_tail =
      ap (λ k. if p == k then if l.prev p == 0 then l.next p else l.prev p else k) r.at_tail
      ∙ tails (Bool-cases (p == last_or 0 xs)) (Bool-cases (l.prev p == 0));
  counted = omega (arith, r.counted, room, length-removed p xs i);
}
  where
    ends : last_or 0 (removed p xs) ≡ (if p == last_or 0 xs then l.prev p else last_or 0 xs)
    ends = last_or-removed l.next l.prev p 0 xs r.linked r.distinct i

    tails :
        ((p == last_or 0 xs) ≡ true) ⊎ ((p == last_or 0 xs) ≡ false)
        → ((l.prev p == 0) ≡ true) ⊎ ((l.prev p == 0) ≡ false)
        → (if p == last_or 0 xs then if l.prev p == 0 then l.next p else l.prev p else last_or 0 xs)
          ≡ last_or 0 (removed p xs)
    tails (inr h) c =
        let e : last_or 0 (removed p xs) ≡ last_or 0 xs = ends ∙ rw h refl in rw h (sym e)
    tails (inl h) (inl z) =
        let e : last_or 0 (removed p xs) ≡ l.prev p = ends ∙ rw h refl in
        let n : l.next p ≡ 0 =
          next-last l.next l.prev p 0 xs r.linked r.distinct i ((==_iff p (last_or 0 xs)).0 h) in
        rw (h, z) (n ∙ sym ((==_iff (l.prev p) 0).0 z) ∙ sym e)
    tails (inl h) (inr z) =
        let e : last_or 0 (removed p xs) ≡ l.prev p = ends ∙ rw h refl in rw (h, z) (sym e)
