-- ===== src/Syscall/Tests.antt =====
-- Runs of the system calls for two tasks.
use pinyon.Prelude.{ℕ, ◌+◌, ◌%◌, ◌≡◌, refl, arith, true, false, none, some, ◌>>=◌, [], ◌∷◌}
use pinyon.Files.{ℤ, pos, negsuc, File, dev_zero, dev_null, read_only, write_only, task_read}
use pinyon.Files
use pinyon.Tasks.{runnable, Task}
use pinyon.Syscall.{
  word, from_signed_cast, Process, Kernel, Machine, running_process, validate_syscall, user_close,
  user_read, handle_syscall, conversion_error, to_signed_cast,
}
use pinyon.Syscall.Wrappers.{finish, user_close-close, user_read-read}

abbrev shell : Task ℕ
shell = record {
  state = runnable;
  is_kernel = false;
  jiffies_when_scheduled = 10;
  cpu_jiffies = 3;
  waiting_for = none;
}

abbrev process : Process
process = record {
  descriptors = some 0 ∷ some 1 ∷ [];
  heap = record {
    fallback_allocator = 512;
    high_watermark_allocator = record { start = 0; watermark = 0; end = 0 };
  };
}

abbrev kernel : Kernel ℕ
kernel = record {
  manager = record { tasks = shell ∷ shell ∷ []; running_task_index = 1 };
  processes = process ∷ process ∷ [];
  files =
      some (record { file = dev_zero; mode = read_only; ref_count = 1 })
      ∷ some (record { file = dev_null; mode = write_only; ref_count = 1 })
      ∷ [];
  allocations = λ place. record { start = 8192; size = 4096; has_memory = true };
}

abbrev machine : Machine ℕ
machine = record {
  world = 20;
  jiffies = λ w. w;
  rounds = 4;
  created = true;
  file_grows = true;
  descriptors_grow = true;
  allocates = true;
  string_at = λ _. [];
  device_read = λ _ n k. some (pos 0, k);
  device_write = λ _ n k. some (pos 0, k);
}

unknown_run : handle_syscall machine 11 0 0 0 kernel ≡ some (conversion_error, kernel)
unfolding handle_syscall validate_syscall to_signed_cast
unknown_run = refl

user_close-close_example : user_close machine (pos 1) kernel ≡ (
    Files.close (pos 1) kernel.files process.descriptors >>= λ (ret, files, ds).
    some (ret, finish machine kernel process files ds))
unfolding running_process
user_close-close_example = user_close-close machine (pos 1) kernel process (omega arith) refl

user_read-read_example : user_read machine (pos 0) 4096 8 kernel ≡ (
    task_read machine.device_read (pos 0) 7 kernel.files process.descriptors kernel >>= λ (ret, k').
    some ((ret, (4096 + from_signed_cast ret) % word), k'))
unfolding running_process
user_read-read_example =
    user_read-read machine (pos 0) 4096 8 kernel process (omega arith) (λ file n k. omega arith)
      refl
