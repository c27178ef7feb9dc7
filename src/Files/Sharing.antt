-- ===== src/Files/Sharing.antt =====
-- The descriptions behind the descriptors: their counts, and what closing one of two does.
use pinyon.Prelude.{
  ℕ, ◌+◌, ◌-◌, ◌%◌, ◌≡◌, refl, ◌≢◌, ◌⊎◌, inl, inr, sym, ap, ◌∙◌, arith, Bool, ◌==◌, Option-cases,
  if◌then◌else◌, Option, none, some, length, get_elem?, set, get_elem?-lt, get_elem?-set_self,
  get_elem?-set_ne,
}
use pinyon.Files.{
  ℤ, pos, negsuc, FileDescription, FileTable, Descriptors, word, failure, try_get, try_insert,
  close_file, close, dup,
}
use pinyon.Files.Descriptors.{
  Inserted, inserted, full, InsertedAt, try_insert-Inserted, try_get-pos, try_get-slot,
  try_get-negsuc,
}

-- The slot of a description after one reference to it is given up.
abbrev pub dropped : FileDescription → Option FileDescription
dropped d =
    let ref_count = (d.ref_count + word - 1) % word in
    if ref_count == 0 then none else some (record d { ref_count = ref_count })

close_file-live :
    (p : ℕ) (files : FileTable) (d : FileDescription)
    → get_elem? files p ≡ some (some d)
    → close_file p files ≡ some (set files p (dropped d))
unfolding close_file
close_file-live p files d e = rw e refl

close-refused :
    (fd : ℤ) (files : FileTable) (ds : Descriptors)
    → try_get fd ds ≡ none
    → close fd files ds ≡ some (pos 0, files, ds)
unfolding close failure
close-refused fd files ds e = ground (arith, e)

close-live :
    (fd p : ℕ) (files : FileTable) (ds : Descriptors) (d : FileDescription)
    → try_get (pos fd) ds ≡ some p
    → get_elem? files p ≡ some (some d)
    → close (pos fd) files ds ≡ some (pos 0, set files p (dropped d), set ds fd none)
unfolding close
close-live fd p files ds d e live =
    ground (arith, e, close_file-live p files d live, (try_get-pos fd p ds e).0)

-- What `close` returns on a table whose descriptors lead to descriptions that were not destroyed.
pub data Closed (fd : ℤ) (files : FileTable) (ds : Descriptors)
    : Option (ℤ × FileTable × Descriptors) → Type 0 where
  refused : try_get fd ds ≡ none → Closed fd files ds (some (pos 0, files, ds))
  closed :
      (i p : ℕ) (d : FileDescription) (files' : FileTable) (ds' : Descriptors)
      → fd ≡ pos i
      → try_get fd ds ≡ some p
      → get_elem? files p ≡ some (some d)
      → get_elem? files' p ≡ some (dropped d)
      → ((q : ℕ) → q ≢ p → get_elem? files' q ≡ get_elem? files q)
      → try_get fd ds' ≡ none
      → ((j : ℕ) → j ≢ i → get_elem? ds' j ≡ get_elem? ds j)
      → Closed fd files ds (some (pos 0, files', ds'))

-- If the descriptor, where it is one of the table, leads to a description that was not destroyed, then
-- `close` returns 0 on every branch, since EBADF is the errno 0. A descriptor that is negative, past the
-- table or null changes nothing. Any other is null afterwards and its description has one reference
-- less, or is destroyed with its last; the other descriptors and descriptions stay.
pub close-Closed :
    (fd : ℤ) (files : FileTable) (ds : Descriptors)
    → ((p : ℕ)
        → try_get fd ds ≡ some p
        → (d : FileDescription) × (get_elem? files p ≡ some (some d)))
    → Closed fd files ds (close fd files ds)
close-Closed (negsuc n) files ds alive = elim (Option-cases (try_get (negsuc n) ds)) [
  | inl e ↦ rw (close-refused (negsuc n) files ds e) (refused e)
  | inr (p, e) ↦ absurd (try_get-negsuc n p ds e)
]
close-Closed (pos i) files ds alive = elim (Option-cases (try_get (pos i) ds)) [
  | inl e ↦ rw (close-refused (pos i) files ds e) (refused e)
  | inr (p, e) ↦
      let (d, live) = alive p e in
      let (_, slot) = try_get-pos i p ds e in
      rw (close-live i p files ds d e live) (
        closed i p d (set files p (dropped d)) (set ds i none) refl e live
          (get_elem?-set_self files p _ (get_elem?-lt files p (some d) live))
          (λ q h. get_elem?-set_ne files p q _ (λ s. h (sym s)))
          (try_get-slot i (set ds i none) none
            (get_elem?-set_self ds i _ (get_elem?-lt ds i (some p) slot)))
          (λ j h. get_elem?-set_ne ds i j _ (λ s. h (sym s))))
]

dup-live :
    (grows : Bool) (fd : ℤ) (p : ℕ) (ds : Descriptors)
    → try_get fd ds ≡ some p
    → dup grows fd ds ≡ try_insert grows p ds
unfolding dup
dup-live grows fd p ds e = ground (arith, e)

InsertedAt-keeps :
    (p fd fd' : ℕ) (ds ds' : Descriptors)
    → try_get (pos fd) ds ≡ some p
    → InsertedAt p fd' ds ds'
    → (fd ≢ fd') × (get_elem? ds' fd ≡ some (some p))
InsertedAt-keeps p fd fd' ds ds' e ins =
    let (_, slot) = try_get-pos fd p ds e in
    let other : fd ≢ fd' = λ same. taken same slot ins.is_free in
    (other, ins.others fd other ∙ slot)
  where
    taken :
        fd ≡ fd'
        → get_elem? ds fd ≡ some (some p)
        → (get_elem? ds fd' ≡ some none) ⊎ (fd' ≡ length ds)
        → ⊥
    taken same slot (inl free) = cc
    taken same slot (inr end) = omega (arith, same, end, get_elem?-lt ds fd (some p) slot)

-- `dup` does not count: of two descriptors that it made of one with a single reference, closing the
-- first destroys the description while the second still leads to it.
pub dup-close :
    (grows : Bool) (fd p fd' : ℕ) (files : FileTable) (ds ds' : Descriptors) (d : FileDescription)
    → try_get (pos fd) ds ≡ some p
    → get_elem? files p ≡ some (some d)
    → d.ref_count ≡ 1
    → dup grows (pos fd) ds ≡ (pos fd', ds')
    → (files' : FileTable) × (ds'' : Descriptors) × (close (pos fd) files ds'
        ≡ some (pos 0, files', ds''))
      × (try_get (pos fd') ds'' ≡ some p)
      × (get_elem? files' p ≡ some none)
dup-close grows fd p fd' files ds ds' d e live once made =
    let ins =
      placed (try_insert grows p ds) (sym (dup-live grows (pos fd) p ds e) ∙ made)
        (try_insert-Inserted grows p ds) in
    let (other, slot) = InsertedAt-keeps p fd fd' ds ds' e ins in
    let last : dropped d ≡ none = rw once refl in
    (
      set files p (dropped d),
      set ds' fd none,
      close-live fd p files ds' d (try_get-slot fd ds' (some p) slot) live,
      try_get-slot fd' (set ds' fd none) (some p)
          (get_elem?-set_ne ds' fd fd' none other ∙ ins.is_put),
      get_elem?-set_self files p (dropped d) (get_elem?-lt files p (some d) live) ∙ ap some last,
    )
  where
    placed :
        (res : ℤ × Descriptors)
        → res ≡ (pos fd', ds')
        → Inserted grows p ds res
        → InsertedAt p fd' ds ds'
    placed _ same (inserted fd₁ ds₁ _ _ ins) =
        let first : fd₁ ≡ fd' = cc in let second : ds₁ ≡ ds' = cc in rw (sym first, sym second) ins
    placed _ same (full _) = cc
