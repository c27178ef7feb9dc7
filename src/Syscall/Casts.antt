-- ===== src/Syscall/Casts.antt =====
-- The casts of arguments and results, and the numbers of the calls.
use pinyon.Prelude.{
  ℕ, zero, suc, ◌-◌, ◌%◌, ◌≤◌, ◌≡◌, ◌↔◌, refl, sym, ap, ◌∙◌, inl, inr, arith, true, false, ltb, leb,
  Bool-cases, none, some, some-injective,
}
use pinyon.Files.{ℤ, pos, negsuc}
use pinyon.Syscall.{
  Syscall, yield, sleep, open_file, read, write, close, dup, sbrk, uptime, cputime, exit, int_max,
  word, to_signed_cast, from_signed_cast, fits_within_int, syscall_of, number, validate_syscall,
}

-- The values of an int.
abbrev pub IsInt : ℤ → Type 0
IsInt (pos n) = n ≤ int_max
IsInt (negsuc n) = n ≤ int_max

-- An int that a wrapper passes comes out of the kernel's cast as it was.
pub to_signed_cast-from_signed_cast : (z : ℤ) → IsInt z → to_signed_cast (from_signed_cast z) ≡ z
unfolding to_signed_cast from_signed_cast
to_signed_cast-from_signed_cast (pos n) small =
    let e : n % word ≡ n = omega arith in rw e (ground arith)
to_signed_cast-from_signed_cast (negsuc n) small =
    let e : word - 1 - n % word ≡ word - 1 - n = omega arith in
    let f : word - 1 - (word - 1 - n) ≡ n = omega arith in
    let g : leb (word - 1 - n) int_max ≡ false = ground arith in rw (e, g, f) refl

pub fits_within_int-from_signed_cast :
    (z : ℤ) → IsInt z → fits_within_int (from_signed_cast z) ≡ true
unfolding fits_within_int
fits_within_int-from_signed_cast (pos n) small =
    rw (fits_within_int, to_signed_cast-from_signed_cast (pos n) small) (ground arith)
fits_within_int-from_signed_cast (negsuc n) small =
    rw (fits_within_int, to_signed_cast-from_signed_cast (negsuc n) small) (ground arith)

pub validate-number : (call : Syscall) → validate_syscall (number call) ≡ some call
unfolding validate_syscall to_signed_cast syscall_of number
validate-number yield = refl
validate-number sleep = refl
validate-number open_file = refl
validate-number read = refl
validate-number write = refl
validate-number close = refl
validate-number dup = refl
validate-number sbrk = refl
validate-number uptime = refl
validate-number cputime = refl
validate-number exit = refl

number-of : (n : ℕ) (call : Syscall) → syscall_of n ≡ some call → number call ≡ n
unfolding syscall_of number
number-of zero call e = ap number (sym (some-injective yield call e))
number-of (suc zero) call e = ap number (sym (some-injective sleep call e))
number-of (suc (suc zero)) call e = ap number (sym (some-injective open_file call e))
number-of (suc (suc (suc zero))) call e = ap number (sym (some-injective read call e))
number-of (suc (suc (suc (suc zero)))) call e = ap number (sym (some-injective write call e))
number-of (suc (suc (suc (suc (suc zero))))) call e = ap number (sym (some-injective close call e))
number-of (suc (suc (suc (suc (suc (suc zero)))))) call e =
    ap number (sym (some-injective dup call e))
number-of (suc (suc (suc (suc (suc (suc (suc zero))))))) call e =
    ap number (sym (some-injective sbrk call e))
number-of (suc (suc (suc (suc (suc (suc (suc (suc zero)))))))) call e =
    ap number (sym (some-injective uptime call e))
number-of (suc (suc (suc (suc (suc (suc (suc (suc (suc zero))))))))) call e =
    ap number (sym (some-injective cputime call e))
number-of (suc (suc (suc (suc (suc (suc (suc (suc (suc (suc zero)))))))))) call e =
    ap number (sym (some-injective exit call e))
number-of (suc (suc (suc (suc (suc (suc (suc (suc (suc (suc (suc n))))))))))) call e = absurd cc

validate_syscall-known :
    (call_data : ℕ) (call : Syscall)
    → validate_syscall call_data ≡ some call
    → number call ≡ call_data
unfolding validate_syscall to_signed_cast
validate_syscall-known call_data call e = elim (Bool-cases (leb call_data int_max)) [
  | inl small ↦ elim (Bool-cases (ltb 10 call_data)) [
    | inl high ↦
        absurd (let f : none ≡ some call = sym (rw (validate_syscall, small, high) refl) ∙ e in cc)
    | inr low ↦ number-of call_data call (sym (rw (validate_syscall, small, low) refl) ∙ e)
  ]
  | inr negative ↦
      absurd (let f : none ≡ some call = sym (rw (validate_syscall, negative) refl) ∙ e in cc)
]

-- A number is taken for a call just when it is the call's.
pub validate_syscall_iff :
    (call_data : ℕ) (call : Syscall)
    → (validate_syscall call_data ≡ some call) ↔ (number call ≡ call_data)
validate_syscall_iff call_data call =
    (validate_syscall-known call_data call, λ e. ap validate_syscall (sym e) ∙ validate-number call)
