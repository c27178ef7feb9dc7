-- ===== src/Syscall/Results.antt =====
-- The results of the descriptor calls are ints.
use pinyon.Prelude.{
  ℕ, subst, ◌≤◌, ◌≡◌, refl, sym, inl, inr, arith, Bool, true, false, ltb, ltb→le, if◌then◌else◌,
  Bool-cases, Option-cases, Option, none, some, ◌>>=◌, get_elem?, get_elem?-lt, set,
}
use pinyon.Files.{
  ℤ, pos, negsuc, File, Device, dev_null, dev_zero, uart, display, FileDescription, FileTable,
  Descriptors, FileMode, read_only, write_only, read_write, Errno, ebadf, efbig, einval, enomem,
  failure, try_get, try_insert, close_file, fd_index, file_read, file_write, description_read,
  description_write, ssize_max, userspace_buffer_is_valid, on_descriptor, task_read, task_write,
}
use pinyon.Files
use pinyon.Files.Descriptors.{Inserted, inserted, full, try_insert-Inserted}
use pinyon.Syscall.Casts.{IsInt}

Inserted-IsInt :
    (grows : Bool) (p : ℕ) (ds : Descriptors) (r : ℤ × Descriptors)
    → Inserted grows p ds r
    → IsInt r.0
Inserted-IsInt grows p ds r (inserted fd ds' small grown put) = elim put.is_free [
  | inl e ↦ omega (arith, get_elem?-lt ds fd none e, small)
  | inr e ↦ omega (arith, e, small)
]
Inserted-IsInt grows p ds r (full why) = omega arith

dup-none :
    (grows : Bool) (fd : ℤ) (ds : Descriptors)
    → try_get fd ds ≡ none
    → Files.dup grows fd ds ≡ (pos 0, ds)
unfolding Files.dup failure
dup-none grows fd ds e = rw (Files.dup, e) refl

dup-some :
    (grows : Bool) (fd : ℤ) (p : ℕ) (ds : Descriptors)
    → try_get fd ds ≡ some p
    → Files.dup grows fd ds ≡ try_insert grows p ds
unfolding Files.dup
dup-some grows fd p ds e = rw (Files.dup, e) refl

abbrev IntFirst : ℤ × Descriptors → Type 0
IntFirst r = IsInt r.0

pub dup-IsInt : (grows : Bool) (fd : ℤ) (ds : Descriptors) → IntFirst (Files.dup grows fd ds)
dup-IsInt grows fd ds = elim (Option-cases (try_get fd ds)) [
  | inl e ↦ subst IntFirst (sym (dup-none grows fd ds e)) (omega arith)
  | inr (p, e) ↦
      subst IntFirst (sym (dup-some grows fd p ds e))
        (Inserted-IsInt grows p ds (try_insert grows p ds) (try_insert-Inserted grows p ds))
]

abbrev pub ZeroFirst : Option (ℤ × FileTable × Descriptors) → Type 0
ZeroFirst none = Unit
ZeroFirst (some r) = r.0 ≡ pos 0

pub close-ZeroFirst :
    (fd : ℤ) (files : FileTable) (ds : Descriptors) → ZeroFirst (Files.close fd files ds)
unfolding Files.close failure
close-ZeroFirst fd files ds = on_slot (try_get fd ds)
  where
    on_index :
        (i : Option ℕ) (f : FileTable) → ZeroFirst (i >>= λ i. some (pos 0, f, set ds i none))
    on_index none f = tt
    on_index (some i) f = refl

    on_files :
        (f : Option FileTable)
        → ZeroFirst (f >>= λ f. fd_index fd ds >>= λ i. some (pos 0, f, set ds i none))
    on_files none = tt
    on_files (some f) = on_index (fd_index fd ds) f

    on_slot :
        (slot : Option ℕ)
        → ZeroFirst (elim slot [
          | none ↦ some (pos 0, files, ds)
          | some p ↦
              close_file p files >>= λ f. fd_index fd ds >>= λ i. some (pos 0, f, set ds i none)
        ])
    on_slot none = refl
    on_slot (some p) = on_files (close_file p files)

module _ {K : Type 0} where
  abbrev pub IntResult : Option (ℤ × K) → Type 0
  IntResult none = Unit
  IntResult (some r) = IsInt r.0

failure-IsInt : (e : Errno) → IsInt (failure e)
unfolding failure
failure-IsInt ebadf = omega arith
failure-IsInt efbig = omega arith
failure-IsInt einval = omega arith
failure-IsInt enomem = omega arith

module _ {K : Type 0} (device : Device K)
    (ints : (file : File) (n : ℕ) (k : K) → IntResult (device file n k)) where
  file_write-IntResult :
      (file : File) (n : ℕ) (k : K) → n ≤ ssize_max → IntResult (file_write device file n k)
  unfolding file_write
  file_write-IntResult dev_null n k le = le
  file_write-IntResult dev_zero n k le = le
  file_write-IntResult uart n k le = ints uart n k
  file_write-IntResult display n k le = ints display n k

  file_read-IntResult :
      (file : File) (n : ℕ) (k : K) → n ≤ ssize_max → IntResult (file_read device file n k)
  unfolding file_read
  file_read-IntResult dev_null n k le = omega arith
  file_read-IntResult dev_zero n k le = le
  file_read-IntResult uart n k le = ints uart n k
  file_read-IntResult display n k le = ints display n k

  bounded :
      (f : Option (ℤ × K)) (n : ℕ) (k : K)
      → (n ≤ ssize_max → IntResult f)
      → IntResult (if ltb ssize_max n then some (failure einval, k) else f)
  bounded f n k h = elim (Bool-cases (ltb ssize_max n)) [
    | inl long ↦ rw long (failure-IsInt einval)
    | inr short ↦ rw short (h (ltb→le ssize_max n short))
  ]

  pub description_write-IntResult :
      (d : FileDescription) (n : ℕ) (k : K) → IntResult (description_write device d n k)
  unfolding description_write
  description_write-IntResult d n k = on_mode d.mode
    where
      open_mode :
          IntResult
            (if ltb ssize_max n then some (failure einval, k) else file_write device d.file n k)
      open_mode = bounded (file_write device d.file n k) n k (file_write-IntResult d.file n k)

      on_mode :
          (mode : FileMode)
          → IntResult (elim mode [
            | read_only ↦ some (failure einval, k)
            | write_only ↦
                if ltb ssize_max n then some (failure einval, k) else file_write device d.file n k
            | read_write ↦
                if ltb ssize_max n then some (failure einval, k) else file_write device d.file n k
          ])
      on_mode read_only = failure-IsInt einval
      on_mode write_only = open_mode
      on_mode read_write = open_mode

  pub description_read-IntResult :
      (d : FileDescription) (n : ℕ) (k : K) → IntResult (description_read device d n k)
  unfolding description_read
  description_read-IntResult d n k = on_mode d.mode
    where
      open_mode :
          IntResult
            (if ltb ssize_max n then some (failure einval, k) else file_read device d.file n k)
      open_mode = bounded (file_read device d.file n k) n k (file_read-IntResult d.file n k)

      on_mode :
          (mode : FileMode)
          → IntResult (elim mode [
            | write_only ↦ some (failure einval, k)
            | read_only ↦
                if ltb ssize_max n then some (failure einval, k) else file_read device d.file n k
            | read_write ↦
                if ltb ssize_max n then some (failure einval, k) else file_read device d.file n k
          ])
      on_mode write_only = failure-IsInt einval
      on_mode read_only = open_mode
      on_mode read_write = open_mode

pub on_descriptor-IntResult :
    {K : Type 0} (call : FileDescription → ℕ → K → Option (ℤ × K)) (fd : ℤ) (bytes : ℕ)
    (files : FileTable) (ds : Descriptors) (k : K)
    → ((d : FileDescription) (n : ℕ) → IntResult (call d n k))
    → IntResult (on_descriptor call fd bytes files ds k)
unfolding on_descriptor userspace_buffer_is_valid failure
on_descriptor-IntResult call fd bytes files ds k ints = on_length (ltb ssize_max bytes)
  where
    on_description : (slot : Option FileDescription) → IntResult (slot >>= λ d. call d bytes k)
    on_description none = tt
    on_description (some d) = ints d bytes

    on_file :
        (slot : Option (Option FileDescription))
        → IntResult (slot >>= λ s. s >>= λ d. call d bytes k)
    on_file none = tt
    on_file (some slot) = on_description slot

    on_slot :
        (slot : Option ℕ)
        → IntResult (elim slot [
          | none ↦ some (failure ebadf, k)
          | some p ↦ get_elem? files p >>= λ s. s >>= λ d. call d bytes k
        ])
    on_slot none = failure-IsInt ebadf
    on_slot (some p) = on_file (get_elem? files p)

    on_length :
        (long : Bool)
        → IntResult (elim (if long then failure efbig else pos 0) [
          | negsuc n ↦ some (negsuc n, k)
          | pos _ ↦ elim (try_get fd ds) [
            | none ↦ some (failure ebadf, k)
            | some p ↦ get_elem? files p >>= λ s. s >>= λ d. call d bytes k
          ]
        ])
    on_length true = failure-IsInt efbig
    on_length false = on_slot (try_get fd ds)
