-- ===== src/Files/Tests.antt =====
-- Runs of the descriptor table.
use pinyon.Prelude.{ℕ, ◌≡◌, refl, true, none, some, some-injective, [], ◌∷◌, get_elem?, subst}
use pinyon.Files.{
  pos, FileDescription, dev_zero, dev_null, read_only, write_only, FileTable, Descriptors, failure,
  fd_index, try_get, insert_at_null, try_insert, close, dup, open_file, open_descriptor,
}
use pinyon.Files.{
  negsuc, Device, task_read, task_write, on_descriptor, userspace_buffer_is_valid, description_read,
  description_write, file_read, file_write,
}
use pinyon.Files.Descriptors.{Inserted, try_insert-Inserted}
use pinyon.Files.Sharing.{Closed, close-Closed, dup-close}

abbrev zero_description : FileDescription
zero_description = record { file = dev_zero; mode = read_only; ref_count = 1 }

abbrev null_description : FileDescription
null_description = record { file = dev_null; mode = write_only; ref_count = 1 }

-- The files of a new task.
abbrev two_files : FileTable
two_files = some zero_description ∷ some null_description ∷ []

abbrev two_descriptors : Descriptors
two_descriptors = some 0 ∷ some 1 ∷ []

open_run :
    open_descriptor true true (some dev_null) write_only (some zero_description ∷ []) (some 0 ∷ [])
    ≡ some (pos 1, two_files, two_descriptors)
unfolding open_descriptor open_file try_insert insert_at_null
open_run = refl

dup_missing : dup true (pos 7) two_descriptors ≡ (pos 0, two_descriptors)
unfolding dup try_get fd_index failure
dup_missing = refl

get_run : try_get (pos 1) two_descriptors ≡ some 1
unfolding try_get fd_index
get_run = refl

dup_run : dup true (pos 1) two_descriptors ≡ (pos 2, some 0 ∷ some 1 ∷ some 1 ∷ [])
unfolding dup try_get fd_index try_insert insert_at_null
dup_run = refl

try_insert-Inserted_example :
    Inserted true 5 (some 0 ∷ none ∷ []) (try_insert true 5 (some 0 ∷ none ∷ []))
try_insert-Inserted_example = try_insert-Inserted true 5 (some 0 ∷ none ∷ [])

alive :
    (p : ℕ)
    → try_get (pos 1) two_descriptors ≡ some p
    → (d : FileDescription) × (get_elem? two_files p ≡ some (some d))
unfolding try_get fd_index
alive p e =
    subst (λ q. (d : FileDescription) × (get_elem? two_files q ≡ some (some d)))
      (some-injective 1 p e) (null_description, refl)

close-Closed_example :
    Closed (pos 1) two_files two_descriptors (close (pos 1) two_files two_descriptors)
close-Closed_example = close-Closed (pos 1) two_files two_descriptors alive

dup-close_example :
    (files' : FileTable) × (ds'' : Descriptors) × (close
        (pos 1)
        two_files
        (some 0 ∷ some 1 ∷ some 1 ∷ [])
      ≡ some (pos 0, files', ds''))
    × (try_get (pos 2) ds'' ≡ some 1)
    × (get_elem? files' 1 ≡ some none)
dup-close_example =
    dup-close true 1 1 2 two_files two_descriptors (some 0 ∷ some 1 ∷ some 1 ∷ []) null_description
      get_run refl refl dup_run

-- No device is asked: the descriptors are those of the pseudo devices.
abbrev no_device : Device ℕ
no_device file bytes k = none

read_run : task_read no_device (pos 0) 64 two_files two_descriptors 7 ≡ some (pos 64, 7)
unfolding task_read on_descriptor userspace_buffer_is_valid try_get fd_index description_read
    file_read
read_run = refl

read_closed : task_read no_device (pos 9) 64 two_files two_descriptors 7 ≡ some (pos 0, 7)
unfolding task_read on_descriptor userspace_buffer_is_valid try_get fd_index failure
read_closed = refl

write_mode : task_write no_device (pos 0) 64 two_files two_descriptors 7 ≡ some (negsuc 1, 7)
unfolding task_write on_descriptor userspace_buffer_is_valid try_get fd_index description_write
    file_write failure
write_mode = refl
