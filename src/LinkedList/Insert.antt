-- ===== src/LinkedList/Insert.antt =====
-- `insert_after` and `append` do on memory what insertion does on the sequence.
use pinyon.Prelude.{
  ℕ, suc, ◌+◌, ◌%◌, ◌<◌, ◌≡◌, refl, sym, ap, subst, ◌∙◌, ◌⊎◌, inl, inr, arith, false, ◌==◌, ==_iff,
  Bool-cases, if◌then◌else◌, List, [], ◌∷◌, ◌++◌, length, In,
}
use pinyon.LinkedList.{ManualLinkedList, word, update, insert_after, append}
use pinyon.LinkedList.Chains.{
  first_or, last_or, IsOff, IsDistinct, IsLinked, Represents, IsLinked-relink, All-intro, IsOff-In,
  ==_swap, In-pos, last_or-In, not_zero, not_next, next-In,
}

-- The sequence with `q` behind `p`.
abbrev pub inserted : (p q : ℕ) → List ℕ → List ℕ
inserted p q [] = q ∷ []
inserted p q (x ∷ xs) = if x == p then x ∷ q ∷ xs else x ∷ inserted p q xs

-- The maps after an insertion into a list that is not empty.
abbrev next_after : (next : ℕ → ℕ) (p q : ℕ) → ℕ → ℕ
next_after next p q = if next p == 0 then update next p q else update (update next p q) q (next p)

abbrev prev_after : (next prev : ℕ → ℕ) (p q : ℕ) → ℕ → ℕ
prev_after next prev p q =
    if next p == 0 then update prev q p else update (update prev q p) (next p) q

first_or-inserted :
    (r p q : ℕ) (xs : List ℕ) → In p xs → first_or r (inserted p q xs) ≡ first_or r xs
first_or-inserted r p q [] i = absurd i
first_or-inserted r p q (x ∷ xs) i = ground arith

IsOff-inserted :
    (y p q : ℕ) (xs : List ℕ) → IsOff y xs → (q == y) ≡ false → IsOff y (inserted p q xs)
IsOff-inserted y p q [] o e = (e, tt)
IsOff-inserted y p q (x ∷ xs) (o, os) e = elim (Bool-cases (x == p)) [
  | inl h ↦ rw h (o, (e, os))
  | inr h ↦ rw h (o, IsOff-inserted y p q xs os e)
]

IsDistinct-inserted :
    (p q : ℕ) (xs : List ℕ) → IsDistinct xs → 0 < q → IsOff q xs → IsDistinct (inserted p q xs)
IsDistinct-inserted p q [] d pos o = (pos, tt, tt)
IsDistinct-inserted p q (x ∷ xs) (px, off, d) pos (o, os) = elim (Bool-cases (x == p)) [
  | inl h ↦ rw h (px, (==_swap x q o, off), (pos, os, d))
  | inr h ↦
      rw h (px, IsOff-inserted x p q xs off (==_swap x q o), IsDistinct-inserted p q xs d pos os)
]

length-inserted : (p q : ℕ) (xs : List ℕ) → length (inserted p q xs) ≡ suc (length xs)
length-inserted p q [] = refl
length-inserted p q (x ∷ xs) = ground (arith, length-inserted p q xs)

module _ (next prev : ℕ → ℕ) (p q : ℕ) where
  next_after-p : (p == q) ≡ false → next_after next p q p ≡ q
  next_after-p h = ground (arith, h)

  next_after-q : (p == q) ≡ false → next q ≡ 0 → next_after next p q q ≡ next p
  next_after-q h fresh = ground (arith, h, fresh)

  next_after-other : (y : ℕ) → (y == p) ≡ false → (y == q) ≡ false → next_after next p q y ≡ next y
  next_after-other y a b = ground (arith, a, b)

  prev_after-q : (q == next p) ≡ false → prev_after next prev p q q ≡ p
  prev_after-q h = ground (arith, h)

  prev_after-next : 0 < next p → prev_after next prev p q (next p) ≡ q
  prev_after-next h = ground (arith, h)

  prev_after-other :
      (y : ℕ) → (y == q) ≡ false → (y == next p) ≡ false → prev_after next prev p q y ≡ prev y
  prev_after-other y a b = ground (arith, a, b)

module _ (next prev : ℕ → ℕ) (q : ℕ) (pos : 0 < q) (fresh : next q ≡ 0) where
  -- The insertion behind the first node.
  IsLinked-here :
      (before x : ℕ) (xs : List ℕ)
      → IsLinked next prev before (x ∷ xs)
      → IsDistinct (x ∷ xs)
      → IsOff q (x ∷ xs)
      → IsLinked (next_after next x q) (prev_after next prev x q) before (x ∷ q ∷ xs)
  IsLinked-here before x xs (b, n, l) (px, off, d) (o, os) =
      let far : (x == next x) ≡ false = ap (λ k. x == k) n ∙ not_next x xs px off in
      let new : (q == next x) ≡ false = ap (λ k. q == k) n ∙ not_next q xs pos os in
      (
        prev_after-other next prev x q x o far ∙ b,
        next_after-p next prev x q o,
        (
          prev_after-q next prev x q new,
          next_after-q next prev x q o fresh ∙ n,
          IsLinked-relink next prev _ _ x q xs l d
              (All-intro xs (λ y j.
                next_after-other next prev x q y (IsOff-In x y xs off j) (IsOff-In q y xs os j)))
              (λ y f j.
                prev_after-other next prev x q y (IsOff-In q y xs os j) (ap (λ k. y == k) n ∙ f))
              (λ f.
                subst (λ k. prev_after next prev x q k ≡ q) n
                  (prev_after-next next prev x q (subst (λ k. 0 < k) (sym n) f))),
        ),
      )

  IsLinked-inserted :
      (p before : ℕ) (xs : List ℕ)
      → IsLinked next prev before xs
      → IsDistinct xs
      → IsOff q xs
      → In p xs
      → IsLinked (next_after next p q) (prev_after next prev p q) before (inserted p q xs)
  IsLinked-inserted p before [] l d o i = absurd i
  IsLinked-inserted p before (x ∷ xs) (b, n, l) (px, off, d) (o, os) i =
      elim (Bool-cases (x == p)) [
        | inl here ↦
            let e : x ≡ p = (==_iff x p).0 here in
            rw here (
              subst
                (λ k. IsLinked (next_after next k q) (prev_after next prev k q) before (x ∷ q ∷ xs))
                e (IsLinked-here before x xs (b, n, l) (px, off, d) (o, os)))
        | inr other ↦
            let j = later i other in
            let far : (x == next p) ≡ false = away (next-In next prev x p xs l j) in
            rw other (
              prev_after-other next prev p q x o far ∙ b,
              next_after-other next prev p q x other o ∙ n ∙ sym (first_or-inserted 0 p q xs j),
              IsLinked-inserted p x xs l d os j,
            )
      ]
    where
      later : In p (x ∷ xs) → (x == p) ≡ false → In p xs
      later (inl e) h = absurd (ground (arith, e, h))
      later (inr j) h = j

      away : (next p ≡ 0) ⊎ In (next p) xs → (x == next p) ≡ false
      away (inl z) = ground (arith, z, px)
      away (inr j) = ==_swap (next p) x (IsOff-In x (next p) xs off j)

last_or-inserted :
    (next prev : ℕ → ℕ) (p q r before : ℕ) (xs : List ℕ)
    → IsLinked next prev before xs
    → IsDistinct xs
    → In p xs
    → last_or r (inserted p q xs) ≡ (if next p == 0 then q else last_or r xs)
last_or-inserted next prev p q r before [] l d i = absurd i
last_or-inserted next prev p q r before (x ∷ xs) (b, n, l) (px, off, d) i =
    elim (Bool-cases (x == p)) [
      | inl here ↦ rw here (at xs d (ap next (sym ((==_iff x p).0 here)) ∙ n))
      | inr other ↦ rw other (last_or-inserted next prev p q x x xs l d (later i other))
    ]
  where
    later : In p (x ∷ xs) → (x == p) ≡ false → In p xs
    later (inl e) h = absurd (ground (arith, e, h))
    later (inr j) h = j

    at :
        (ys : List ℕ)
        → IsDistinct ys
        → next p ≡ first_or 0 ys
        → last_or q ys ≡ (if next p == 0 then q else last_or x ys)
    at [] d e = ground (arith, e)
    at (y ∷ ys) (py, _, _) e = rw (ap (λ k. k == 0) e ∙ not_zero y py) refl

module _ (l : ManualLinkedList) (q : ℕ) where
  insert_after-full :
      (p : ℕ)
      → (l.head == 0) ≡ false
      → (p == 0) ≡ false
      → insert_after p q l ≡ record l {
        next = next_after l.next p q;
        prev = prev_after l.next l.prev p q;
        tail = if l.next p == 0 then q else l.tail;
        length = (l.length + 1) % word;
      }
  unfolding insert_after
  insert_after-full p h z = elim (Bool-cases (l.next p == 0)) [
    | inl e ↦ rw (z, h, e) refl
    | inr e ↦ rw (z, h, e) refl
  ]

  insert_after-empty :
      (p : ℕ)
      → l.head ≡ 0
      → insert_after p q l ≡ record l { head = q; tail = q; length = (l.length + 1) % word }
  unfolding insert_after
  insert_after-empty p h = ground (arith, h)

  insert_after-null : (l.tail == 0) ≡ false → insert_after 0 q l ≡ insert_after l.tail q l
  unfolding insert_after
  insert_after-null t = rw t refl

inserted-last :
    (r q : ℕ) (xs : List ℕ) → IsDistinct xs → inserted (last_or r xs) q xs ≡ xs ++ (q ∷ [])
inserted-last r q [] d = refl
inserted-last r q (x ∷ []) d = ground arith
inserted-last r q (x ∷ y ∷ ys) (px, off, d) =
    let other : (x == last_or y ys) ≡ false =
      ==_swap (last_or y ys) x (IsOff-In x _ (y ∷ ys) off (last_or-In y ys)) in
    rw other (ap (λ zs. x ∷ zs) (inserted-last x q (y ∷ ys) d))

module _ (l : ManualLinkedList) (xs : List ℕ) (q : ℕ) (r : Represents l xs) (pos : 0 < q)
    (off : IsOff q xs) (fresh : l.next q ≡ 0) (room : length xs + 1 < word) where
  pub insert_after-Represents :
      (p : ℕ) → In p xs → Represents (insert_after p q l) (inserted p q xs)
  insert_after-Represents p i =
      let full : (l.head == 0) ≡ false = ap (λ k. k == 0) r.at_head ∙ nonempty xs r.distinct i in
      let pz : (p == 0) ≡ false = not_zero p (In-pos p xs r.distinct i) in
      rw (insert_after-full l q p full pz) (record {
        linked = IsLinked-inserted l.next l.prev q pos fresh p 0 xs r.linked r.distinct off i;
        distinct = IsDistinct-inserted p q xs r.distinct pos off;
        at_head = r.at_head ∙ sym (first_or-inserted 0 p q xs i);
        at_tail =
            ap (λ k. if l.next p == 0 then q else k) r.at_tail
            ∙ sym (last_or-inserted l.next l.prev p q 0 0 xs r.linked r.distinct i);
        counted = omega (arith, r.counted, room, length-inserted p q xs);
      })
    where
      nonempty : (ys : List ℕ) → IsDistinct ys → In p ys → (first_or 0 ys == 0) ≡ false
      nonempty [] d i = absurd i
      nonempty (y ∷ ys) (py, _, _) i = not_zero y py

  -- With the null pointer the node goes behind the tail; `append` does the same.
  pub insert_last-Represents :
      l.prev q ≡ 0
      → Represents (insert_after 0 q l) (xs ++ (q ∷ [])) × Represents (append q l) (xs ++ (q ∷ []))
  unfolding append
  insert_last-Represents unlinked = by_cases xs refl
    where
      at_end : In (last_or 0 xs) xs → Represents (insert_after l.tail q l) (xs ++ (q ∷ []))
      at_end i =
          subst (λ zs. Represents (insert_after l.tail q l) zs) (inserted-last 0 q xs r.distinct)
            (subst (λ t. Represents (insert_after t q l) (inserted (last_or 0 xs) q xs))
              (sym r.at_tail) (insert_after-Represents (last_or 0 xs) i))

      first : (p : ℕ) → ◌≡◌ {A = List ℕ} xs [] → Represents (insert_after p q l) (xs ++ (q ∷ []))
      first p e =
          let empty : l.head ≡ 0 = r.at_head ∙ ap (first_or 0) e in
          rw (insert_after-empty l q p empty, e)
            (record {
              linked = (unlinked, fresh, tt);
              distinct = (pos, tt, tt);
              at_head = refl;
              at_tail = refl;
              counted = omega (arith, r.counted, ap length e);
            })

      by_cases :
          (ys : List ℕ)
          → xs ≡ ys
          → Represents (insert_after 0 q l) (xs ++ (q ∷ []))
            × Represents (insert_after l.tail q l) (xs ++ (q ∷ []))
      by_cases [] e = (first 0 e, first l.tail e)
      by_cases (y ∷ ys) e =
          let i : In (last_or 0 xs) xs =
            subst (λ zs. In (last_or 0 zs) zs) (sym e) (last_or-In y ys) in
          let t : (l.tail == 0) ≡ false =
            ap (λ k. k == 0) r.at_tail ∙ not_zero _ (In-pos _ xs r.distinct i) in
          (rw (insert_after-null l q t) (at_end i), at_end i)
