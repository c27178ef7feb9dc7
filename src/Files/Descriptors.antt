-- ===== src/Files/Descriptors.antt =====
-- Which descriptor an insertion gives, and what closing does on every branch.
use pinyon.Prelude.{
  ℕ, zero, suc, ◌+◌, ◌≤◌, ◌<◌, ◌≡◌, refl, ◌≢◌, ◌⊎◌, inl, inr, sym, ap, ◌∙◌, arith, Bool, true,
  false, ltb, Bool-cases, Option-cases, Option, none, some, ◌>>=◌, [], ◌∷◌, ◌++◌, length, get_elem?,
  get_elem?-lt,
}
use pinyon.Files.{
  ℤ, pos, negsuc, Descriptors, int_max, fd_index, try_get, insert_at_null, try_insert,
}

-- The insertion of a description at the lowest free place, or behind the table.
pub record InsertedAt (p fd : ℕ) (ds ds' : Descriptors) : Type 0 where
  pub is_free : (get_elem? ds fd ≡ some none) ⊎ (fd ≡ length ds)
  pub is_lowest : (i : ℕ) → i < fd → get_elem? ds i ≡ some none → ⊥
  pub is_put : get_elem? ds' fd ≡ some (some p)
  pub others : (i : ℕ) → i ≢ fd → get_elem? ds' i ≡ get_elem? ds i

insert_at_null-some :
    (p base fd : ℕ) (ds ds' : Descriptors)
    → insert_at_null p base ds ≡ some (fd, ds')
    → (i : ℕ) × (fd ≡ base + i) × (i < length ds) × InsertedAt p i ds ds'
unfolding insert_at_null
insert_at_null-some p base fd [] ds' e = cc
insert_at_null-some p base fd (none ∷ ds) ds' e =
    let (e₁, e₂) = parts e in
    (
      0,
      omega (arith, e₁),
      omega arith,
      rw (sym e₂) (record {
        is_free = inl refl;
        is_lowest = λ i h f. omega (arith, h);
        is_put = refl;
        others = λ i h. elsewhere i h;
      }),
    )
  where
    parts :
        ◌≡◌ {A = Option (ℕ × Descriptors)} (some (base, some p ∷ ds)) (some (fd, ds'))
        → (base ≡ fd) × ((some p ∷ ds) ≡ ds')
    parts e = (cc, cc)

    elsewhere : (i : ℕ) → i ≢ 0 → get_elem? {A = Option ℕ} (some p ∷ ds) i ≡ get_elem? (none ∷ ds) i
    elsewhere zero h = absurd (h refl)
    elsewhere (suc i) h = refl
insert_at_null-some p base fd (some q ∷ ds) ds' e =
    elim (Option-cases (insert_at_null p (suc base) ds)) [
      | inl missing ↦ absurd (never missing e)
      | inr ((fd₁, ds₁), found) ↦
          let (e₁, e₂) = parts fd₁ ds₁ found e in
          let (i, at, less, ins) = insert_at_null-some p (suc base) fd₁ ds ds₁ found in
          (
            suc i,
            omega (arith, at, e₁),
            omega (arith, less),
            rw (sym e₂) (record {
              is_free = behind i ins.is_free;
              is_lowest = λ k h f. lowest i ins.is_lowest k h f;
              is_put = ins.is_put;
              others = λ k h. elsewhere i ds₁ ins.others k h;
            }),
          )
    ]
  where
    never :
        insert_at_null p (suc base) ds ≡ none
        → insert_at_null p base (some q ∷ ds) ≡ some (fd, ds')
        → ⊥
    never missing e = ground (arith, missing, e)

    parts :
        (fd₁ : ℕ) (ds₁ : Descriptors)
        → insert_at_null p (suc base) ds ≡ some (fd₁, ds₁)
        → insert_at_null p base (some q ∷ ds) ≡ some (fd, ds')
        → (fd₁ ≡ fd) × ((some q ∷ ds₁) ≡ ds')
    parts fd₁ ds₁ found e =
        let e' : ◌≡◌ {A = Option (ℕ × Descriptors)} (some (fd₁, some q ∷ ds₁)) (some (fd, ds')) =
          sym (rw found refl) ∙ e in
        (cc, cc)

    behind :
        (i : ℕ)
        → (get_elem? ds i ≡ some none) ⊎ (i ≡ length ds)
        → (get_elem? (some q ∷ ds) (suc i) ≡ some none) ⊎ (suc i ≡ length (some q ∷ ds))
    behind i (inl e) = inl e
    behind i (inr e) = inr (ap suc e)

    lowest :
        (i : ℕ)
        → ((k : ℕ) → k < i → get_elem? ds k ≡ some none → ⊥)
        → (k : ℕ) → k < suc i
        → get_elem? (some q ∷ ds) k ≡ some none
        → ⊥
    lowest i low zero h f = cc
    lowest i low (suc k) h f = low k (omega (arith, h)) f

    elsewhere :
        (i : ℕ) (ds₁ : Descriptors)
        → ((k : ℕ) → k ≢ i → get_elem? ds₁ k ≡ get_elem? ds k)
        → (k : ℕ) → k ≢ suc i
        → get_elem? (some q ∷ ds₁) k ≡ get_elem? (some q ∷ ds) k
    elsewhere i ds₁ same zero h = refl
    elsewhere i ds₁ same (suc k) h = same k (λ e. h (ap suc e))

insert_at_null-none :
    (p base : ℕ) (ds : Descriptors)
    → insert_at_null p base ds ≡ none
    → (i : ℕ) → get_elem? ds i ≡ some none
    → ⊥
unfolding insert_at_null
insert_at_null-none p base [] e i f = cc
insert_at_null-none p base (none ∷ ds) e i f = cc
insert_at_null-none p base (some q ∷ ds) e zero f = cc
insert_at_null-none p base (some q ∷ ds) e (suc i) f =
    insert_at_null-none p (suc base) ds (rest (insert_at_null p (suc base) ds) e) i f
  where
    rest :
        (o : Option (ℕ × Descriptors))
        → ◌≡◌ {A = Option (ℕ × Descriptors)}
            (◌>>=◌ {B = ℕ × Descriptors} o (λ (fd, ds'). some (fd, some q ∷ ds')))
            none
        → o ≡ none
    rest none e = refl
    rest (some (fd, ds')) e = cc

append_last :
    (ds : Descriptors) (slot : Option ℕ) → get_elem? (ds ++ (slot ∷ [])) (length ds) ≡ some slot
append_last [] slot = refl
append_last (d ∷ ds) slot = append_last ds slot

append_other :
    (ds : Descriptors) (slot : Option ℕ) (i : ℕ)
    → i ≢ length ds
    → get_elem? (ds ++ (slot ∷ [])) i ≡ get_elem? ds i
append_other [] slot zero h = absurd (h refl)
append_other [] slot (suc i) h = refl
append_other (d ∷ ds) slot zero h = refl
append_other (d ∷ ds) slot (suc i) h = append_other ds slot i (λ e. h (ap suc e))

-- What `try_insert` returns: a descriptor that an int can hold, behind the table only if the table
-- can grow; or -1 if the table is too long, or is full and cannot grow.
pub data Inserted (grows : Bool) (p : ℕ) (ds : Descriptors) : ℤ × Descriptors → Type 0 where
  inserted :
      (fd : ℕ) (ds' : Descriptors)
      → length ds ≤ int_max
      → (fd ≡ length ds → grows ≡ true)
      → InsertedAt p fd ds ds'
      → Inserted grows p ds (pos fd, ds')
  full :
      (int_max < length ds) ⊎ ((grows ≡ false) × ((i : ℕ) → get_elem? ds i ≡ some none → ⊥))
      → Inserted grows p ds (negsuc 0, ds)

-- `try_insert` gives the lowest descriptor whose slot is null, or the first behind the table if there
-- is none and the table can grow, puts the description there, and changes no other slot; it returns -1
-- and changes nothing just when the table is longer than an int can count, or has no null slot and
-- cannot grow.
pub try_insert-Inserted :
    (grows : Bool) (p : ℕ) (ds : Descriptors) → Inserted grows p ds (try_insert grows p ds)
unfolding try_insert
try_insert-Inserted grows p ds = elim (Bool-cases (ltb int_max (length ds))) [
  | inl long ↦ rw long (full (inl (ground (arith, long))))
  | inr short ↦ elim (Option-cases (insert_at_null p 0 ds)) [
    | inr ((fd, ds'), found) ↦
        let (i, at, less, ins) = insert_at_null-some p 0 fd ds ds' found in
        let same : fd ≡ i = omega (arith, at) in
        rw (short, found, same)
          (inserted i ds' (ground (arith, short)) (λ e. absurd (omega (arith, e, less))) ins)
    | inl missing ↦ elim (Bool-cases grows) [
      | inl yes' ↦
          rw (short, missing, yes')
            (inserted (length ds) _ (ground (arith, short)) (λ _. refl)
              (record {
                is_free = inr refl;
                is_lowest = λ i h f. insert_at_null-none p 0 ds missing i f;
                is_put = append_last ds (some p);
                others = λ i h. append_other ds (some p) i h;
              }))
      | inr no' ↦ rw (short, missing, no') (full (inr (refl, insert_at_null-none p 0 ds missing)))
    ]
  ]
]

pub try_get-pos :
    (fd p : ℕ) (ds : Descriptors)
    → try_get (pos fd) ds ≡ some p
    → (fd_index (pos fd) ds ≡ some fd) × (get_elem? ds fd ≡ some (some p))
unfolding try_get fd_index
try_get-pos fd p ds e = (ground (arith, e), slot)
  where
    slot : get_elem? ds fd ≡ some (some p)
    slot = ground (arith, e)

pub try_get-slot :
    (fd : ℕ) (ds : Descriptors) (slot : Option ℕ)
    → get_elem? ds fd ≡ some slot
    → try_get (pos fd) ds ≡ slot
unfolding try_get fd_index
try_get-slot fd ds slot e = ground (arith, e, get_elem?-lt ds fd slot e)

pub try_get-negsuc : (n p : ℕ) (ds : Descriptors) → try_get (negsuc n) ds ≡ some p → ⊥
unfolding try_get fd_index
try_get-negsuc n p ds e = cc
