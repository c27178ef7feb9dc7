-- ===== src/Syscall.antt =====
-- The system calls: kernel/syscall.cpp, the calls' numbers of pine/syscall.hpp, the casts of
-- pine/cast.hpp, and the wrappers of userspace/lib.cpp. A process is what a task holds next to its
-- scheduling: its descriptors and its heap; both lists are indexed as the task manager's. The trap
-- hands the arguments on, and an argument that a wrapper does not set is 0 here.
pub mod Casts
pub mod Results
pub mod Wrappers
mod Tests
use pinyon.Prelude.{
  ℕ, zero, suc, ◌+◌, ◌-◌, ◌*◌, ◌%◌, ◌^◌, Bool, true, false, ◌&&◌, ltb, leb, ◌==◌, if◌then◌else◌,
  Option, none, some, ◌>>=◌, List, [], ◌∷◌, get_elem?, set,
}
use pinyon.Files.{
  ℤ, pos, negsuc, FileMode, read_only, write_only, read_write, File, dev_null, dev_zero, uart,
  display, FileTable, Descriptors, Device, open_descriptor, task_read, task_write,
}
use pinyon.Files
use pinyon.Tasks.{TaskManager, Switch, schedule, exit_running_task, remove_at}
use pinyon.Tasks
use pinyon.Heap.{FixedAllocation, TaskHeap}
use pinyon.Heap

abbrev pub word : ℕ
word = 2 ^ 32

-- pine::limits<int>::max, and the size of pine::limits<int>::min less 1
abbrev pub int_max : ℕ
int_max = 2 ^ 31 - 1

-- bit_cast to and from ptrdiff_t
unfoldable pub to_signed_cast : ℕ → ℤ
to_signed_cast from = if leb from int_max then pos from else negsuc (word - 1 - from)

unfoldable pub from_signed_cast : ℤ → ℕ
from_signed_cast (pos n) = n % word
from_signed_cast (negsuc n) = word - 1 - n % word

-- `fits_within<int>` and `fits_within<u32>`
unfoldable pub fits_within_int : ℕ → Bool
fits_within_int from = elim (to_signed_cast from) [
  | pos n ↦ leb n int_max
  | negsuc n ↦ leb n int_max
]

unfoldable pub fits_within_u32 : ℕ → Bool
fits_within_u32 from = if ltb (word - 1) from then false else true

pub data Syscall : Type 0 where
  yield : Syscall
  sleep : Syscall
  open_file : Syscall
  read : Syscall
  write : Syscall
  close : Syscall
  dup : Syscall
  sbrk : Syscall
  uptime : Syscall
  cputime : Syscall
  exit : Syscall

-- `static_cast<Syscall>`
unfoldable pub syscall_of : ℕ → Option Syscall
syscall_of n =
    get_elem?
      (yield ∷ sleep ∷ open_file ∷ read ∷ write ∷ close ∷ dup ∷ sbrk ∷ uptime ∷ cputime ∷ exit ∷ [])
      n

-- The enumerators' numbers.
unfoldable pub number : Syscall → ℕ
number yield = 0
number sleep = 1
number open_file = 2
number read = 3
number write = 4
number close = 5
number dup = 6
number sbrk = 7
number uptime = 8
number cputime = 9
number exit = 10

unfoldable pub validate_syscall : ℕ → Option Syscall
validate_syscall call_data = elim (to_signed_cast call_data) [
  | negsuc n ↦ none
  | pos n ↦ if ltb 10 n then none else syscall_of call_data
]

unfoldable pub mode_of : ℕ → Option FileMode
mode_of n = get_elem? (read_only ∷ write_only ∷ read_write ∷ []) n

unfoldable pub mode_number : FileMode → ℕ
mode_number read_only = 0
mode_number write_only = 1
mode_number read_write = 2

unfoldable pub validate_file_mode : ℕ → Option FileMode
validate_file_mode file_mode_data = elim (to_signed_cast file_mode_data) [
  | negsuc n ↦ none
  | pos n ↦ if ltb 2 n then none else mode_of file_mode_data
]

unfoldable pub same_text : List ℕ → List ℕ → Bool
same_text [] [] = true
same_text [] (y ∷ ys) = false
same_text (x ∷ xs) [] = false
same_text (x ∷ xs) (y ∷ ys) = x == y && same_text xs ys

-- "/dev/null", "/dev/zero", "/dev/uart0" and "/dev/display"
abbrev pub dev_path : List ℕ → List ℕ
dev_path name = 47 ∷ 100 ∷ 101 ∷ 118 ∷ 47 ∷ name

-- The file that `FileTable::open` makes for a path.
unfoldable pub file_at : (created : Bool) → List ℕ → Option File
file_at created path =
    let made = λ (file : File). if created then some file else none in
    if same_text path (dev_path (110 ∷ 117 ∷ 108 ∷ 108 ∷ []))
    then made dev_null
    else if same_text path (dev_path (122 ∷ 101 ∷ 114 ∷ 111 ∷ []))
    then made dev_zero
    else if same_text path (dev_path (117 ∷ 97 ∷ 114 ∷ 116 ∷ 48 ∷ []))
    then made uart
    else if same_text path (dev_path (100 ∷ 105 ∷ 115 ∷ 112 ∷ 108 ∷ 97 ∷ 121 ∷ []))
    then made display
    else none

pub record Process : Type 0 where
  pub descriptors : Descriptors
  pub heap : TaskHeap

pub record Kernel (World : Type 0) : Type 0 where
  pub manager : TaskManager World
  pub processes : List Process
  pub files : FileTable
  -- the FixedAllocations in memory, to which the tasks' heaps point
  pub allocations : ℕ → FixedAllocation

-- What a call finds: the clock and what it reads, the rounds of the scheduler's loop, the outcomes of
-- the kernel heap's allocations, the strings in memory, and the devices.
pub record Machine (World : Type 0) : Type 0 where
  pub world : World
  pub jiffies : World → ℕ
  pub rounds : ℕ
  pub created : Bool
  pub file_grows : Bool
  pub descriptors_grow : Bool
  pub allocates : Bool
  pub string_at : ℕ → List ℕ
  pub device_read : Device (Kernel World)
  pub device_write : Device (Kernel World)

-- The value in the first register, once the task runs again, and the switch of tasks.
pub record Reply : Type 0 where
  pub value : ℕ
  pub switched : Option Switch

abbrev pub returns : ℕ → Reply
returns value = record { value = value; switched = none }

-- `from_signed_cast<PtrData>(-1)`
abbrev pub conversion_error : Reply
conversion_error = returns (word - 1)

module _ {World : Type 0} (machine : Machine World) where
  -- `task_mgr.running_task`
  unfoldable pub running_process : Kernel World → Option Process
  running_process k = get_elem? k.processes k.manager.running_task_index

  unfoldable pub with_process : Kernel World → Process → Kernel World
  with_process k p = record k { processes = set k.processes k.manager.running_task_index p }

  unfoldable pub do_exit : Kernel World → Option (Reply × Kernel World)
  do_exit k = do
    processes ← remove_at true k.manager.running_task_index k.processes
    (switch, manager) ←
        exit_running_task machine.jiffies machine.rounds machine.allocates machine.world k.manager
    some (
      record { value = 0; switched = some switch },
      record k { manager = manager; processes = processes },
    )

  unfoldable pub do_yield : Kernel World → Option (Reply × Kernel World)
  do_yield k = do
    (switch, manager) ← schedule machine.jiffies machine.rounds machine.world k.manager
    some (record { value = 0; switched = switch }, record k { manager = manager })

  unfoldable pub do_sleep : ℕ → Kernel World → Option (Reply × Kernel World)
  do_sleep secs k = do
    (switch, manager) ← Tasks.sleep machine.jiffies machine.rounds secs machine.world k.manager
    some (record { value = 0; switched = switch }, record k { manager = manager })

  unfoldable pub do_open : (path : ℕ) → FileMode → Kernel World → Option (Reply × Kernel World)
  do_open path mode k = do
    p ← running_process k
    (fd, files, descriptors) ←
        open_descriptor machine.file_grows machine.descriptors_grow
          (file_at machine.created (machine.string_at path)) mode k.files p.descriptors
    let k' = with_process k (record p { descriptors = descriptors })
    some (returns (from_signed_cast fd), record k' { files = files })

  unfoldable pub do_read : ℤ → ℕ → Kernel World → Option (Reply × Kernel World)
  do_read fd at_most_bytes k = do
    p ← running_process k
    (ret, k') ← task_read machine.device_read fd at_most_bytes k.files p.descriptors k
    some (returns (from_signed_cast ret), k')

  unfoldable pub do_write : ℤ → ℕ → Kernel World → Option (Reply × Kernel World)
  do_write fd bytes k = do
    p ← running_process k
    (ret, k') ← task_write machine.device_write fd bytes k.files p.descriptors k
    some (returns (from_signed_cast ret), k')

  unfoldable pub do_close : ℤ → Kernel World → Option (Reply × Kernel World)
  do_close fd k = do
    p ← running_process k
    (ret, files, descriptors) ← Files.close fd k.files p.descriptors
    let k' = with_process k (record p { descriptors = descriptors })
    some (returns (from_signed_cast ret), record k' { files = files })

  unfoldable pub do_dup : ℤ → Kernel World → Option (Reply × Kernel World)
  do_dup fd k = do
    p ← running_process k
    let (ret, descriptors) = Files.dup machine.descriptors_grow fd p.descriptors
    some (returns (from_signed_cast ret), with_process k (record p { descriptors = descriptors }))

  unfoldable pub do_sbrk : ℕ → Kernel World → Option (Reply × Kernel World)
  do_sbrk increase k = do
    p ← running_process k
    let (ptr, heap, allocations) = Heap.sbrk increase p.heap k.allocations
    let k' = with_process k (record p { heap = heap })
    some (returns ptr, record k' { allocations = allocations })

  unfoldable pub do_cputime : Kernel World → Option (Reply × Kernel World)
  do_cputime k = do
    time ← Tasks.cputime machine.jiffies machine.world k.manager k.manager.running_task_index
    some (returns time, k)

  -- The cases of `handle_syscall`.
  unfoldable pub dispatch :
      Syscall → (arg1 arg2 arg3 : ℕ) → Kernel World → Option (Reply × Kernel World)
  dispatch exit arg1 arg2 arg3 k =
      if fits_within_int arg1 then do_exit k else some (conversion_error, k)
  dispatch yield arg1 arg2 arg3 k = do_yield k
  dispatch sleep arg1 arg2 arg3 k =
      if fits_within_u32 arg1 then do_sleep arg1 k else some (conversion_error, k)
  dispatch open_file arg1 arg2 arg3 k = elim (validate_file_mode arg2) [
    | none ↦ some (conversion_error, k)
    | some mode ↦ do_open arg1 mode k
  ]
  dispatch read arg1 arg2 arg3 k =
      if fits_within_int arg1
      then do_read (to_signed_cast arg1) arg3 k
      else some (conversion_error, k)
  dispatch write arg1 arg2 arg3 k =
      if fits_within_int arg1
      then do_write (to_signed_cast arg1) arg3 k
      else some (conversion_error, k)
  dispatch close arg1 arg2 arg3 k =
      if fits_within_int arg1 then do_close (to_signed_cast arg1) k else some (conversion_error, k)
  dispatch dup arg1 arg2 arg3 k =
      if fits_within_int arg1 then do_dup (to_signed_cast arg1) k else some (conversion_error, k)
  dispatch sbrk arg1 arg2 arg3 k = do_sbrk arg1 k
  dispatch uptime arg1 arg2 arg3 k = some (returns (machine.jiffies machine.world), k)
  dispatch cputime arg1 arg2 arg3 k = do_cputime k

  unfoldable pub handle_syscall :
      (call_data arg1 arg2 arg3 : ℕ) → Kernel World → Option (Reply × Kernel World)
  handle_syscall call_data arg1 arg2 arg3 k = elim (validate_syscall call_data) [
    | none ↦ some (conversion_error, k)
    | some call ↦ dispatch call arg1 arg2 arg3 k
  ]

  -- The wrappers of userspace/lib.cpp, with what the caller gets.
  unfoldable pub user_close : ℤ → Kernel World → Option (ℤ × Kernel World)
  user_close fd k = do
    (reply, k') ← handle_syscall (number close) (from_signed_cast fd) 0 0 k
    some (to_signed_cast reply.value, k')

  unfoldable pub user_dup : ℤ → Kernel World → Option (ℤ × Kernel World)
  user_dup fd k = do
    (reply, k') ← handle_syscall (number dup) (from_signed_cast fd) 0 0 k
    some (to_signed_cast reply.value, k')

  -- What the kernel puts into the buffer is left out. The second result is the address at which
  -- `read` puts the NUL, which for a negative number of bytes lies before the buffer.
  unfoldable pub user_read :
      ℤ → (buf at_most_bytes : ℕ) → Kernel World → Option ((ℤ × ℕ) × Kernel World)
  user_read fd buf at_most_bytes k = do
    let bytes = (at_most_bytes + word - 1) % word
    (reply, k') ← handle_syscall (number read) (from_signed_cast fd) buf bytes k
    let bytes_read = to_signed_cast reply.value
    some ((bytes_read, (buf + from_signed_cast bytes_read) % word), k')

  unfoldable pub user_write : ℤ → (buf bytes : ℕ) → Kernel World → Option (ℤ × Kernel World)
  user_write fd buf bytes k = do
    (reply, k') ← handle_syscall (number write) (from_signed_cast fd) buf bytes k
    some (to_signed_cast reply.value, k')

  unfoldable pub user_yield : Kernel World → Option (Reply × Kernel World)
  user_yield k = handle_syscall (number yield) 0 0 0 k

  unfoldable pub user_sleep : ℕ → Kernel World → Option (Reply × Kernel World)
  user_sleep secs k = handle_syscall (number sleep) secs 0 0 k

  unfoldable pub user_uptime : Kernel World → Option (ℕ × Kernel World)
  user_uptime k = do
    (reply, k') ← handle_syscall (number uptime) 0 0 0 k
    some (reply.value % word, k')

  unfoldable pub user_cputime : Kernel World → Option (ℕ × Kernel World)
  user_cputime k = do
    (reply, k') ← handle_syscall (number cputime) 0 0 0 k
    some (reply.value % word, k')

  unfoldable pub user_sbrk : ℕ → Kernel World → Option (ℕ × Kernel World)
  user_sbrk increase k = do
    (reply, k') ← handle_syscall (number sbrk) increase 0 0 k
    some (reply.value, k')

  unfoldable pub user_exit : ℤ → Kernel World → Option (Reply × Kernel World)
  user_exit code k = handle_syscall (number exit) (from_signed_cast code) 0 0 k

  unfoldable pub user_open : (path : ℕ) → FileMode → Kernel World → Option (ℤ × Kernel World)
  user_open path mode k = do
    (reply, k') ← handle_syscall (number open_file) path (mode_number mode) 0 k
    some (to_signed_cast reply.value, k')
