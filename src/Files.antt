-- ===== src/Files.antt =====
-- The file table and the descriptor tables of kernel/file.cpp and kernel/file.hpp, with the null and
-- zero devices of kernel/pseudo_devices.hpp. A pointer to a FileDescription is its index in
-- `FileTable::m_files`, which holds while the vector does not move its items; a description whose
-- destructor ran is `none`. Whether an allocation of the kernel heap succeeds is an argument. The
-- buffers of reads and writes are left out, and UARTFile and DisplayFile are arguments.
pub mod Descriptors
pub mod Sharing
mod Tests
use pinyon.Prelude.{
  ℕ, zero, suc, ◌+◌, ◌-◌, ◌%◌, ◌^◌, Bool, true, false, not, ltb, leb, ◌==◌, if◌then◌else◌, Option,
  none, some, ◌>>=◌, List, [], ◌∷◌, ◌++◌, length, get_elem?, set,
}

pub data ℤ : Type 0 where
  pos : ℕ → ℤ
  negsuc : ℕ → ℤ

-- FileMode
pub data FileMode : Type 0 where
  read_only : FileMode
  write_only : FileMode
  read_write : FileMode

-- The subclasses of File.
pub data File : Type 0 where
  dev_null : File
  dev_zero : File
  uart : File
  display : File

pub record FileDescription : Type 0 where
  pub file : File
  pub mode : FileMode
  pub ref_count : ℕ

abbrev pub FileTable : Type 0
FileTable = List (Option FileDescription)

abbrev pub Descriptors : Type 0
Descriptors = List (Option ℕ)

abbrev pub word : ℕ
word = 2 ^ 32

-- pine::limits<int>::max and pine::limits<ssize_t>::max
abbrev pub int_max : ℕ
int_max = 2 ^ 31 - 1

-- The enumerators of Errno count from 0.
pub data Errno : Type 0 where
  ebadf : Errno
  efbig : Errno
  einval : Errno
  enomem : Errno

-- `-EBADF`, `-EFBIG`, `-EINVAL` and `-ENOMEM`
unfoldable pub failure : Errno → ℤ
failure ebadf = pos 0
failure efbig = negsuc 0
failure einval = negsuc 1
failure enomem = negsuc 2

-- Where a descriptor of a call stands in the vector, if `fd < 0` and the bound let it through.
unfoldable pub fd_index : ℤ → Descriptors → Option ℕ
fd_index (negsuc n) ds = none
fd_index (pos n) ds = if leb (length ds) n then none else some n

-- `FileDescriptorTable::try_get`; `none` is the null pointer.
unfoldable pub try_get : ℤ → Descriptors → Option ℕ
try_get fd ds = do i ← fd_index fd ds; slot ← get_elem? ds i; slot

-- The loop of `try_insert`: the first null slot takes the description.
unfoldable pub insert_at_null : (description fd_index : ℕ) → Descriptors → Option (ℕ × Descriptors)
insert_at_null p i [] = none
insert_at_null p i (none ∷ ds) = some (i, some p ∷ ds)
insert_at_null p i (some q ∷ ds) = do
  (fd, ds') ← insert_at_null p (suc i) ds
  some (fd, some q ∷ ds')

-- `FileDescriptorTable::try_insert`; `grows` is whether the append succeeds.
unfoldable pub try_insert : (grows : Bool) (description : ℕ) → Descriptors → ℤ × Descriptors
try_insert grows p ds =
    let placed : ℤ × Descriptors = elim (insert_at_null p 0 ds) [
      | some (fd, ds') ↦ (pos fd, ds')
      | none ↦ if grows then (pos (length ds), ds ++ (some p ∷ [])) else (negsuc 0, ds)
    ] in
    if ltb int_max (length ds) then (negsuc 0, ds) else placed

-- `FileTable::open` on the file that was made for the path, if any.
unfoldable pub open_file :
    (grows : Bool) (maybe_file : Option File) → FileMode → FileTable → Option ℕ × FileTable
open_file grows none mode files = (none, files)
open_file grows (some file) mode files =
    if grows
    then (
      some (length files),
      files ++ (some (record { file = file; mode = mode; ref_count = 1 }) ∷ []),
    )
    else (none, files)

-- `FileTable::close`; `none` if the description was destroyed before.
unfoldable pub close_file : ℕ → FileTable → Option FileTable
close_file p files = do
  slot ← get_elem? files p
  description ← slot
  let ref_count = (description.ref_count + word - 1) % word
  some (
      set files p
        (if ref_count == 0 then none else some (record description { ref_count = ref_count })))

-- `FileDescriptorTable::open`; the two Booleans are the appends to the two vectors.
unfoldable pub open_descriptor :
    (file_grows fd_grows : Bool)
    → Option File
    → FileMode
    → FileTable
    → Descriptors
    → Option (ℤ × FileTable × Descriptors)
open_descriptor file_grows fd_grows maybe_file mode files ds =
    let (maybe_description, files') = open_file file_grows maybe_file mode files in
    elim maybe_description [
      | none ↦ some (negsuc 0, files', ds)
      | some p ↦
          let (fd_or_neg, ds') = try_insert fd_grows p ds in
          elim fd_or_neg [
            | pos fd ↦ some (pos fd, files', ds')
            | negsuc n ↦ close_file p files' >>= λ files''. some (negsuc 0, files'', ds')
          ]
    ]

-- `FileDescriptorTable::close`
unfoldable pub close : ℤ → FileTable → Descriptors → Option (ℤ × FileTable × Descriptors)
close fd files ds = elim (try_get fd ds) [
  | none ↦ some (failure ebadf, files, ds)
  | some p ↦ do files' ← close_file p files; i ← fd_index fd ds; some (pos 0, files', set ds i none)
]

-- `FileDescriptorTable::dup`
unfoldable pub dup : (grows : Bool) → ℤ → Descriptors → ℤ × Descriptors
dup grows fd ds = elim (try_get fd ds) [
  | none ↦ (failure ebadf, ds)
  | some p ↦ try_insert grows p ds
]

-- pine::limits<ssize_t>::max
abbrev pub ssize_max : ℕ
ssize_max = 2 ^ 31 - 1

-- A read or write of UARTFile or DisplayFile, of so many bytes: it may change the state `K`, also by
-- running other tasks while it waits. `none` is a panic.
abbrev pub Device : Type 0 → Type 0
Device K = File → ℕ → K → Option (ℤ × K)

-- FileDescription::read and FileDescription::write.
module _ {K : Type 0} (device : Device K) where
  unfoldable pub file_read : File → ℕ → K → Option (ℤ × K)
  file_read dev_null at_most_bytes k = some (pos 0, k)
  file_read dev_zero at_most_bytes k = some (pos at_most_bytes, k)
  file_read uart at_most_bytes k = device uart at_most_bytes k
  file_read display at_most_bytes k = device display at_most_bytes k

  unfoldable pub file_write : File → ℕ → K → Option (ℤ × K)
  file_write dev_null bytes k = some (pos bytes, k)
  file_write dev_zero bytes k = some (pos bytes, k)
  file_write uart bytes k = device uart bytes k
  file_write display bytes k = device display bytes k

  unfoldable pub description_read : FileDescription → ℕ → K → Option (ℤ × K)
  description_read d at_most_bytes k = elim d.mode [
    | write_only ↦ some (failure einval, k)
    | read_only ↦
        if ltb ssize_max at_most_bytes
        then some (failure einval, k)
        else file_read d.file at_most_bytes k
    | read_write ↦
        if ltb ssize_max at_most_bytes
        then some (failure einval, k)
        else file_read d.file at_most_bytes k
  ]

  unfoldable pub description_write : FileDescription → ℕ → K → Option (ℤ × K)
  description_write d bytes k = elim d.mode [
    | read_only ↦ some (failure einval, k)
    | write_only ↦
        if ltb ssize_max bytes then some (failure einval, k) else file_write d.file bytes k
    | read_write ↦
        if ltb ssize_max bytes then some (failure einval, k) else file_write d.file bytes k
  ]

-- Task::userspace_buffer_is_valid
unfoldable pub userspace_buffer_is_valid : ℕ → ℤ
userspace_buffer_is_valid bytes = if ltb ssize_max bytes then failure efbig else pos 0

-- What Task::read and Task::write share: `call` is the one on the description.
unfoldable pub on_descriptor :
    {K : Type 0} (call : FileDescription → ℕ → K → Option (ℤ × K))
    → ℤ
    → ℕ
    → FileTable
    → Descriptors
    → K
    → Option (ℤ × K)
on_descriptor call fd bytes files ds k = elim (userspace_buffer_is_valid bytes) [
  | negsuc n ↦ some (negsuc n, k)
  | pos _ ↦ elim (try_get fd ds) [
    | none ↦ some (failure ebadf, k)
    | some p ↦ do slot ← get_elem? files p; description ← slot; call description bytes k
  ]
]

unfoldable pub task_read :
    {K : Type 0} → Device K → ℤ → ℕ → FileTable → Descriptors → K → Option (ℤ × K)
task_read device = on_descriptor (description_read device)

unfoldable pub task_write :
    {K : Type 0} → Device K → ℤ → ℕ → FileTable → Descriptors → K → Option (ℤ × K)
task_write device = on_descriptor (description_write device)
