-- ===== src/FreeList/Blocks.antt =====
-- Sums over the free blocks, and how often an address stands in the list.
use pinyon.Prelude.{
  ℕ, ◌+◌, ◌≤◌, ◌≡◌, refl, inl, inr, ap, arith, false, ◌&&◌, ltb, leb, ◌==◌, ==_iff, Bool-cases,
  if◌then◌else◌, some, List, [], ◌∷◌, ◌++◌, In, total,
}
use pinyon.FreeList.{FreeList, header, remove}

abbrev pub count : ℕ → List ℕ → ℕ
count p = total (λ x. if x == p then 1 else 0)

-- Whether a byte lies in a block of the given size, header included.
abbrev pub in_block : ℕ → ℕ → ℕ → ℕ
in_block byte node size = if leb node byte && ltb byte (node + header + size) then 1 else 0

-- How often a byte is free.
abbrev pub cover : ℕ → FreeList → ℕ
cover byte s = total (λ node. in_block byte node (s.size_at node)) s.free_list

-- The bytes of the free blocks, headers included.
abbrev pub free_bytes : FreeList → ℕ
free_bytes s = total (λ node. header + s.size_at node) s.free_list

pub total-append : (f : ℕ → ℕ) (xs ys : List ℕ) → total f (xs ++ ys) ≡ total f xs + total f ys
total-append f [] ys = omega arith
total-append f (x ∷ xs) ys = omega (arith, total-append f xs ys)

pub total-In : (f : ℕ → ℕ) (p : ℕ) (xs : List ℕ) → In p xs → f p ≤ total f xs
total-In f p [] i = absurd i
total-In f p (x ∷ xs) (inl e) = omega (arith, ap f e)
total-In f p (x ∷ xs) (inr i) = omega (arith, total-In f p xs i)

-- A measure that differs at an address outside the list.
pub total_outside :
    (f g : ℕ → ℕ) (p : ℕ) (xs : List ℕ)
    → count p xs ≡ 0
    → ((x : ℕ) → (x == p) ≡ false → f x ≡ g x)
    → total f xs ≡ total g xs
total_outside f g p [] none' same = refl
total_outside f g p (x ∷ xs) none' same =
    ground (arith, same x, total_outside f g p xs (omega arith) same)

-- A measure that differs at an address that the list has once.
pub total_once :
    (f g : ℕ → ℕ) (p : ℕ) (xs : List ℕ)
    → count p xs ≡ 1
    → ((x : ℕ) → (x == p) ≡ false → f x ≡ g x)
    → total f xs + g p ≡ total g xs + f p
total_once f g p [] once same = absurd (omega arith)
total_once f g p (x ∷ xs) once same = elim (Bool-cases (x == p)) [
  | inl here ↦
      let e : x ≡ p = (==_iff x p).0 here in
      let rest : count p xs ≡ 0 = ground (arith, once, here) in
      omega (arith, ap f e, ap g e, total_outside f g p xs rest same)
  | inr other ↦
      let rest : count p xs ≡ 1 = ground (arith, once, other) in
      omega (arith, same x other, total_once f g p xs rest same)
]

pub count-In : (p : ℕ) (xs : List ℕ) → In p xs → 1 ≤ count p xs
count-In p [] i = absurd i
count-In p (x ∷ xs) (inl e) = ground arith
count-In p (x ∷ xs) (inr i) = omega (arith, count-In p xs i)

pub remove-In :
    (p : ℕ) (xs : List ℕ)
    → In p xs
    → (ys : List ℕ) × (remove p xs ≡ some ys) × ((f : ℕ → ℕ) → total f xs ≡ f p + total f ys)
unfolding remove
remove-In p [] i = absurd i
remove-In p (x ∷ xs) i = elim (Bool-cases (x == p)) [
  | inl here ↦ let e : x ≡ p = (==_iff x p).0 here in (xs, rw here, λ f. omega (arith, ap f e))
  | inr other ↦
      let (ys, found, sums) = remove-In p xs (later i other) in
      (x ∷ ys, rw (other, found), λ f. omega (arith, sums f))
]
  where
    later : In p (x ∷ xs) → (x == p) ≡ false → In p xs
    later (inl e) other = absurd (ground (arith, e, other))
    later (inr i) other = i
