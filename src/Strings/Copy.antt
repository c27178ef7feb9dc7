-- ===== src/Strings/Copy.antt =====
-- What `strbufcopy` leaves in a buffer.
use pinyon.Prelude.{
  ℕ, zero, suc, ◌+◌, ◌≤◌, ◌<◌, ◌≡◌, ◌⊎◌, inl, inr, refl, ap, arith, ltb, Bool-cases, some, List, [],
  ◌∷◌, ◌++◌, length, get_elem?,
}
use pinyon.Strings.{strbufcopy_loop, strbufcopy}
use pinyon.Strings.Compare.{IsText}

-- The buffer after the copy of `n` of the chars: those, the terminator, and the rest as it was.
pub record Copied (cs buf : List ℕ) (n : ℕ) (buf' : List ℕ) : Type 0 where
  pub same_length : length buf' ≡ length buf
  pub chars : (i : ℕ) → i < n → get_elem? buf' i ≡ get_elem? cs i
  pub terminated : get_elem? buf' n ≡ some 0
  pub rest : (i : ℕ) → n < i → get_elem? buf' i ≡ get_elem? buf i

Copied-step :
    (c b n : ℕ) (cs buf buf' : List ℕ)
    → Copied cs buf n buf'
    → Copied (c ∷ cs) (b ∷ buf) (suc n) (c ∷ buf')
Copied-step c b n cs buf buf' p = record {
  same_length = ap suc p.same_length;
  chars = λ i h. chars_at i h;
  terminated = p.terminated;
  rest = λ i h. rest_at i h;
}
  where
    chars_at : (i : ℕ) → i < suc n → get_elem? (c ∷ buf') i ≡ get_elem? (c ∷ cs) i
    chars_at zero h = refl
    chars_at (suc i) h = p.chars i (omega (arith, h))

    rest_at : (i : ℕ) → suc n < i → get_elem? (c ∷ buf') i ≡ get_elem? (b ∷ buf) i
    rest_at zero h = absurd (omega (arith, h))
    rest_at (suc i) h = p.rest i (omega (arith, h))

Copied-end : (b : ℕ) (cs buf : List ℕ) → Copied cs (b ∷ buf) 0 (0 ∷ buf)
Copied-end b cs buf = record {
  same_length = refl;
  chars = λ i h. absurd (omega (arith, h));
  terminated = refl;
  rest = λ i h. rest_at i h;
}
  where
    rest_at : (i : ℕ) → 0 < i → get_elem? (0 ∷ buf) i ≡ get_elem? (b ∷ buf) i
    rest_at zero h = absurd (omega (arith, h))
    rest_at (suc i) h = refl

strbufcopy_loop-Copied :
    (copied bufsize : ℕ) (cs x buf : List ℕ)
    → IsText cs
    → copied < bufsize
    → bufsize ≤ copied + length buf
    → (n : ℕ) × (buf' : List ℕ) × (strbufcopy_loop copied bufsize (cs ++ (0 ∷ x)) buf
        ≡ some (copied + n, buf'))
      × (n ≤ length cs)
      × (copied + n < bufsize)
      × ((n ≡ length cs) ⊎ (suc (copied + n) ≡ bufsize))
      × Copied cs buf n buf'
unfolding strbufcopy_loop
strbufcopy_loop-Copied copied bufsize cs x [] p h room = absurd (omega (arith, h, room))
strbufcopy_loop-Copied copied bufsize [] x (b ∷ buf) p h room =
    (0, 0 ∷ buf, ground arith, omega arith, omega (arith, h), inl refl, Copied-end b [] buf)
strbufcopy_loop-Copied copied bufsize (c ∷ cs) x (b ∷ buf) (p, ps) h room =
    elim (Bool-cases (ltb (copied + 1) bufsize)) [
      | inr full ↦ (
        0,
        0 ∷ buf,
        ground (arith, full),
        omega arith,
        omega (arith, h),
        inr (ground (arith, full, h)),
        Copied-end b (c ∷ cs) buf,
      )
      | inl more ↦
          let (n, buf', run, le, lt, why, done) =
            strbufcopy_loop-Copied (copied + 1) bufsize cs x buf ps (ground (arith, more))
              (omega (arith, room)) in
          (
            suc n,
            c ∷ buf',
            ground (arith, p, more, run),
            omega (arith, le),
            omega (arith, lt),
            ends n why,
            Copied-step c b n cs buf buf' done,
          )
    ]
  where
    ends :
        (n : ℕ)
        → (n ≡ length cs) ⊎ (suc (copied + 1 + n) ≡ bufsize)
        → (suc n ≡ length (c ∷ cs)) ⊎ (suc (copied + suc n) ≡ bufsize)
    ends n (inl e) = inl (ap suc e)
    ends n (inr e) = inr (omega (arith, e))

-- `strbufcopy` of a terminated string into a buffer of at least `bufsize` bytes, above 0, stays within
-- `bufsize`. It copies all the chars, or as many as leave one byte for the terminator, puts the
-- terminator behind them, leaves the other bytes alone and returns how many chars it copied.
pub strbufcopy-Copied :
    (bufsize : ℕ) (cs x buf : List ℕ)
    → IsText cs
    → 0 < bufsize
    → bufsize ≤ length buf
    → (n : ℕ) × (buf' : List ℕ) × (strbufcopy buf bufsize (cs ++ (0 ∷ x)) ≡ some (n, buf'))
      × (n ≤ length cs)
      × (n < bufsize)
      × ((n ≡ length cs) ⊎ (suc n ≡ bufsize))
      × Copied cs buf n buf'
unfolding strbufcopy
strbufcopy-Copied bufsize cs x buf p h room =
    let (n, buf', run, le, lt, why, done) =
      strbufcopy_loop-Copied 0 bufsize cs x buf p h (omega (arith, room)) in
    (n, buf', ground (arith, h, run), le, omega (arith, lt), ends n why, done)
  where
    ends : (n : ℕ) → (n ≡ length cs) ⊎ (suc (0 + n) ≡ bufsize) → (n ≡ length cs) ⊎ (suc n ≡ bufsize)
    ends n (inl e) = inl e
    ends n (inr e) = inr (omega (arith, e))
