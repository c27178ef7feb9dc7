-- ===== src/Userspace.antt =====
-- The memory and the formatted output of a user program: malloc, free, HeapExtender and printf of
-- userspace/lib.cpp. `sbrk` is the system call, on a process of which this part needs nothing else.
-- `none` is a fault of what is below, or out of fuel.
pub mod Prints
mod Tests
use pinyon.Prelude.{
  ℕ, zero, suc, ◌+◌, ◌-◌, ◌*◌, ◌%◌, Bool, true, false, leb, ◌==◌, if◌then◌else◌, Option, none, some,
  ◌>>=◌, List, [], ◌∷◌, ◌++◌,
}
use pinyon.TwoMath.{align_up_two}
use pinyon.FreeList.{FreeList, Allocation}
use pinyon.FreeList
use pinyon.Strings.{strlen}
use pinyon.Print.{Arg, take, vfnprintf}

abbrev pub word : ℕ
word = 4294967296

pub record MallocStats : Type 0 where
  pub heap_size : ℕ
  pub used_size : ℕ
  pub num_mallocs : ℕ
  pub num_frees : ℕ

-- A program: the process that `sbrk` acts on, the free list of `mem_allocator`, `g_malloc_stats`, its
-- memory, and what it wrote to STDOUT_FILENO.
pub record Program (P : Type 0) : Type 0 where
  pub process : P
  pub free_pages : FreeList
  pub malloc_stats : MallocStats
  pub bytes : ℕ → ℕ
  pub written : List ℕ

abbrev pub no_memory : Allocation
no_memory = record { ptr = 0; size = 0 }

-- `malloc:\tNo free space available?!\n`
abbrev pub no_space : List ℕ
no_space =
    109 ∷ 97 ∷ 108 ∷ 108 ∷ 111 ∷ 99 ∷ 58 ∷ 9 ∷ 78 ∷ 111 ∷ 32 ∷ 102 ∷ 114 ∷ 101 ∷ 101 ∷ 32 ∷ 115
    ∷ 112 ∷ 97 ∷ 99 ∷ 101 ∷ 32 ∷ 97 ∷ 118 ∷ 97 ∷ 105 ∷ 108 ∷ 97 ∷ 98 ∷ 108 ∷ 101 ∷ 63 ∷ 33 ∷ 10 ∷ 0
    ∷ []

-- Chars in memory, one after another.
unfoldable pub put_chars : (place : ℕ) → List ℕ → (ℕ → ℕ) → ℕ → ℕ
put_chars place [] bytes = bytes
put_chars place (c ∷ cs) bytes =
    put_chars (place + 1) cs (λ at. if at == place then c else bytes at)

unfoldable pub get_chars : (place count : ℕ) → (ℕ → ℕ) → List ℕ
get_chars place zero bytes = []
get_chars place (suc count) bytes = bytes place ∷ get_chars (place + 1) count bytes

unfoldable pub free : {P : Type 0} → Allocation → Program P → Option (Program P)
free alloc u = do
  (freed, list) ← FreeList.free alloc u.free_pages
  let stats = u.malloc_stats
  some (record u {
    free_pages = list;
    malloc_stats = record stats {
      used_size = (stats.used_size + word - freed) % word;
      num_frees = (stats.num_frees + 1) % word;
    };
  })

module _ {P : Type 0} (sbrk : ℕ → P → Option (ℕ × P)) where
  unfoldable pub heap_extender_allocate : ℕ → Program P → Option (Allocation × Program P)
  heap_extender_allocate requested_size u = do
    let increase = align_up_two 32 requested_size 4096
    (heap_start_ptr, process) ← sbrk increase u.process
    let u' = record u { process = process }
    let stats = u.malloc_stats
    let grown = record u' {
      malloc_stats = record stats { heap_size = (stats.heap_size + increase) % word };
    }
    some (
        if heap_start_ptr == 0
        then (no_memory, u')
        else (record { ptr = heap_start_ptr; size = increase }, grown))

  -- `mem_allocator().allocate`, which binds the free list to the extender.
  unfoldable pub mem_allocate : ℕ → Program P → Option (Allocation × Program P)
  mem_allocate requested_size u = do
    (first, list) ← FreeList.allocate requested_size u.free_pages
    let u' = record u { free_pages = list }
    let extended : Option (Allocation × Program P) = do
      (extra, u'') ← heap_extender_allocate (FreeList.preferred_size requested_size) u'
      let added = FreeList.add extra.ptr extra.size u''.free_pages
      let again : Option (Allocation × Program P) =
          FreeList.allocate requested_size added >>= λ (second, list').
          some (second, record u'' { free_pages = list' })
      if extra.ptr == 0 then some (no_memory, u'') else again
    if first.ptr == 0 then extended else some (first, u')

-- What the wrapper of `printf` captures, next to the program.
pub record Printing (P : Type 0) : Type 0 where
  pub bufsize : ℕ
  pub print_alloc : Allocation
  pub print_buf : ℕ
  pub print_buf_pos : ℕ
  pub program : Program P

module _ {P : Type 0} (malloc : ℕ → Program P → Option (Allocation × Program P)) where
  -- The message copied behind what was printed, with its terminator.
  unfoldable pub copied_behind : (message : List ℕ) (message_size : ℕ) → Printing P → Printing P
  copied_behind message message_size t =
      let program = t.program in
      let text = take message_size message ++ (0 ∷ []) in
      record t {
        print_buf_pos = (t.print_buf_pos + message_size) % word;
        program = record program {
          bytes = put_chars (t.print_buf + t.print_buf_pos) text program.bytes;
        };
      }

  unfoldable pub try_add_wrapper : List ℕ → Printing P → Option (Bool × Printing P)
  try_add_wrapper message t = do
    message_size ← strlen message
    let grown : Option (Bool × Printing P) = do
      u ← free t.print_alloc t.program
      let bufsize = (t.bufsize + message_size + 64) % word
      (alloc, u') ← malloc bufsize u
      let t' = record t { bufsize = bufsize; print_alloc = alloc; program = u' }
      some (if alloc.size == 0 then (false, t') else (true, copied_behind message message_size t'))
    if leb t.bufsize ((t.print_buf_pos + message_size) % word)
        then grown
        else some (true, copied_behind message message_size t)

  unfoldable pub printf : (fmt : List ℕ) → List Arg → Program P → Option (Program P)
  printf fmt args u = do
    n ← strlen fmt
    let bufsize = n * 2 % word
    (alloc, u') ← malloc bufsize u
    let printed : Option (Program P) = do
      (added, t) ← vfnprintf try_add_wrapper fmt args (record {
        bufsize = bufsize;
        print_alloc = alloc;
        print_buf = alloc.ptr;
        print_buf_pos = 0;
        program = u';
      })
      let program = t.program
      let text = get_chars t.print_buf t.print_buf_pos program.bytes
      free t.print_alloc (record program { written = program.written ++ text })
    if alloc.size == 0 then some u' else printed

module _ {P : Type 0} (sbrk : ℕ → P → Option (ℕ × P)) where
  -- On fuel, for the calls that print that there is no space.
  unfoldable pub malloc : (fuel : ℕ) → ℕ → Program P → Option (Allocation × Program P)
  malloc zero requested_size u = none
  malloc (suc fuel) requested_size u = do
    (alloc, u') ← mem_allocate sbrk requested_size u
    let warned = printf (malloc fuel) no_space [] u'
    u'' ← if alloc.size == 0 then warned else some u'
    let stats = u''.malloc_stats
    some (
      alloc,
      record u'' {
        malloc_stats = record stats {
          used_size = (stats.used_size + alloc.size) % word;
          num_mallocs = (stats.num_mallocs + 1) % word;
        };
      },
    )
