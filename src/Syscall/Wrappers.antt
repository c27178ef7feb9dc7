-- ===== src/Syscall/Wrappers.antt =====
-- The wrappers against the kernel's functions on the running process.
use pinyon.Prelude.{ℕ, ◌+◌, ◌-◌, ◌%◌, ◌≡◌, refl, Option, none, some, ◌>>=◌}
use pinyon.Files.{
  ℤ, pos, negsuc, File, dev_null, dev_zero, uart, display, FileDescription, FileTable, Descriptors,
  FileMode, read_only, write_only, read_write, Errno, ebadf, efbig, einval, enomem, failure,
  try_get, try_insert, close_file, fd_index, file_read, file_write, description_read,
  description_write, ssize_max, userspace_buffer_is_valid, on_descriptor, task_read, task_write,
}
use pinyon.Files
use pinyon.Syscall.{
  Syscall, word, close, dup, read, write, number, Process, Kernel, Machine, returns, to_signed_cast,
  from_signed_cast, running_process, with_process, do_close, do_dup, do_read, do_write, dispatch,
  handle_syscall, user_close, user_dup, user_read, user_write,
}
use pinyon.Syscall.Casts.{
  IsInt, to_signed_cast-from_signed_cast, fits_within_int-from_signed_cast, validate-number,
}
use pinyon.Syscall.Results.{
  description_write-IntResult, description_read-IntResult, dup-IsInt, ZeroFirst, close-ZeroFirst,
  IntResult, on_descriptor-IntResult,
}

module _ {World : Type 0} (machine : Machine World) where
  handle_syscall-number :
      (call : Syscall) (arg1 arg2 arg3 : ℕ) (k : Kernel World)
      → handle_syscall machine (number call) arg1 arg2 arg3 k
        ≡ dispatch machine call arg1 arg2 arg3 k
  unfolding handle_syscall
  handle_syscall-number call arg1 arg2 arg3 k = rw (handle_syscall, validate-number call) refl

  -- While a process runs, a call of the user's `dup` with any int is the kernel's `dup` on the
  -- process's descriptors.
  pub user_dup-dup :
      (fd : ℤ) (k : Kernel World) (p : Process)
      → IsInt fd
      → running_process machine k ≡ some p
      → user_dup machine fd k
        ≡ some (
          (Files.dup machine.descriptors_grow fd p.descriptors).0,
          with_process machine k
              (record p { descriptors = (Files.dup machine.descriptors_grow fd p.descriptors).1 }),
        )
  unfolding user_dup dispatch do_dup
  user_dup-dup fd k p small running =
      rw
        (
          handle_syscall-number dup (from_signed_cast fd) 0 0 k,
          fits_within_int-from_signed_cast fd small,
          to_signed_cast-from_signed_cast fd small,
          running,
          to_signed_cast-from_signed_cast (Files.dup machine.descriptors_grow fd p.descriptors).0
              (dup-IsInt machine.descriptors_grow fd p.descriptors),
        )
        refl

  abbrev pub finish : (k : Kernel World) (p : Process) → FileTable → Descriptors → Kernel World
  finish k p files ds = record (with_process machine k (record p { descriptors = ds })) {
    files = files;
  }

  close-done :
      (k : Kernel World) (p : Process) (o : Option (ℤ × FileTable × Descriptors))
      → ZeroFirst o
      → ◌≡◌ {A = Option (ℤ × Kernel World)}
          (o
            >>= (λ (ret, files, ds). some (returns (from_signed_cast ret), finish k p files ds))
            >>= λ (reply, k'). some (to_signed_cast reply.value, k'))
          (o >>= λ (ret, files, ds). some (ret, finish k p files ds))
  unfolding to_signed_cast from_signed_cast
  close-done k p none z = refl
  close-done k p (some (ret, files, ds)) z = rw z refl

  -- While a process runs, a call of the user's `close` with any int is the kernel's `close` on the
  -- process's descriptors and the files.
  pub user_close-close :
      (fd : ℤ) (k : Kernel World) (p : Process)
      → IsInt fd
      → running_process machine k ≡ some p
      → user_close machine fd k ≡ (
          Files.close fd k.files p.descriptors >>= λ (ret, files, ds).
          some (ret, finish k p files ds))
  unfolding user_close dispatch do_close
  user_close-close fd k p small running =
      rw
        (
          handle_syscall-number close (from_signed_cast fd) 0 0 k,
          fits_within_int-from_signed_cast fd small,
          to_signed_cast-from_signed_cast fd small,
          running,
        )
        (close-done k p (Files.close fd k.files p.descriptors)
          (close-ZeroFirst fd k.files p.descriptors))

  ret-done :
      (o : Option (ℤ × Kernel World))
      → IntResult o
      → ◌≡◌ {A = Option (ℤ × Kernel World)}
          (o >>= (λ (ret, k'). some (returns (from_signed_cast ret), k')) >>= λ (reply, k').
            some (to_signed_cast reply.value, k'))
          (o >>= λ (ret, k'). some (ret, k'))
  ret-done none z = refl
  ret-done (some (ret, k')) z = rw (to_signed_cast-from_signed_cast ret z) refl

  -- While a process runs, over devices that return ints, a call of the user's `write` with any int
  -- is the kernel's `write` on the process's descriptors.
  pub user_write-write :
      (fd : ℤ) (buf bytes : ℕ) (k : Kernel World) (p : Process)
      → IsInt fd
      → ((file : File) (n : ℕ) (k : Kernel World) → IntResult (machine.device_write file n k))
      → running_process machine k ≡ some p
      → user_write machine fd buf bytes k ≡ (
          task_write machine.device_write fd bytes k.files p.descriptors k >>= λ (ret, k').
          some (ret, k'))
  unfolding user_write dispatch do_write task_write
  user_write-write fd buf bytes k p small device running =
      rw
        (
          handle_syscall-number write (from_signed_cast fd) buf bytes k,
          fits_within_int-from_signed_cast fd small,
          to_signed_cast-from_signed_cast fd small,
          running,
        )
        (ret-done (task_write machine.device_write fd bytes k.files p.descriptors k) (
          on_descriptor-IntResult (description_write machine.device_write) fd bytes k.files
            p.descriptors k (λ d n. description_write-IntResult machine.device_write device d n k)))

  read-done :
      (buf : ℕ) (o : Option (ℤ × Kernel World))
      → IntResult o
      → ◌≡◌ {A = Option ((ℤ × ℕ) × Kernel World)}
          (o >>= (λ (ret, k'). some (returns (from_signed_cast ret), k')) >>= λ (reply, k'). some (
            (
              to_signed_cast reply.value,
              (buf + from_signed_cast (to_signed_cast reply.value)) % word,
            ),
            k',
          ))
          (o >>= λ (ret, k'). some ((ret, (buf + from_signed_cast ret) % word), k'))
  read-done buf none z = refl
  read-done buf (some (ret, k')) z = rw (to_signed_cast-from_signed_cast ret z) refl

  -- While a process runs, over devices that return ints, a call of the user's `read` with any int
  -- is the kernel's `read` on the process's descriptors with one byte less, which is the largest
  -- word for 0 bytes. The NUL goes to the buffer's address plus the int that the kernel's `read`
  -- returns, as words: on a failure, that many bytes before the buffer.
  pub user_read-read :
      (fd : ℤ) (buf at_most_bytes : ℕ) (k : Kernel World) (p : Process)
      → IsInt fd
      → ((file : File) (n : ℕ) (k : Kernel World) → IntResult (machine.device_read file n k))
      → running_process machine k ≡ some p
      → user_read machine fd buf at_most_bytes k ≡ (
          task_read machine.device_read fd
            ((at_most_bytes + word - 1) % word)
            k.files
            p.descriptors
            k
          >>= λ (ret, k'). some ((ret, (buf + from_signed_cast ret) % word), k'))
  unfolding user_read dispatch do_read task_read
  user_read-read fd buf at_most_bytes k p small device running =
      let bytes = (at_most_bytes + word - 1) % word in
      rw
        (
          handle_syscall-number read (from_signed_cast fd) buf ((at_most_bytes + word - 1) % word)
              k,
          fits_within_int-from_signed_cast fd small,
          to_signed_cast-from_signed_cast fd small,
          running,
        )
        (read-done buf (task_read machine.device_read fd bytes k.files p.descriptors k) (
          on_descriptor-IntResult (description_read machine.device_read) fd bytes k.files
            p.descriptors k (λ d n. description_read-IntResult machine.device_read device d n k)))
