-- ===== src/Lib.antt =====
-- Pinyon: a small kernel for the ARM boards of the Raspberry Pi, on a freestanding C++ library, pine.
--
-- The program's parts. The kernel takes its memory from the page allocator of pine/malloc.hpp and
-- pine/malloc.cpp: PageBroker, which keeps an account of scratch bytes, over PageAllocatorBackend,
-- which keeps free regions of pages in lists by depth, splits them on `allocate` and `reserve_region`
-- and takes them back on `free`. Smaller blocks come from IntrusiveFreeList, whose headers stand in the
-- memory that it gives out. Both run on the linked lists, iterators, algorithms and integer helpers of
-- pine. On them stand the scheduler of kernel/tasks.cpp and the descriptor tables of kernel/file.cpp.
-- PageAllocator of kernel/arch/aarch32/mmu.cpp takes pages from two brokers, one of physical and one of
-- virtual pages, and records them in the translation tables. A user program asks the kernel by system
-- calls, has its own free list over `sbrk`, and prints by the formats of pine/print.hpp.
--
-- The files. Each component is a module with its definitions, and its children hold the proofs.
-- - Math: pine/math.hpp. TwoMath: pine/twomath.hpp, at a word of w bits.
-- - Region: Region of pine/page.hpp; the template's `Magnitude` is an argument.
-- - Algorithm: find_if, lower_bound, distance, advance and PtrIter of pine/algorithm.hpp and
--   pine/iter.hpp.
-- - PageAllocator: PageAllocatorBackend. Its Nodes has the list operations of pine/linked_list.hpp on
--   sequences and the interface to SlabAllocator<Node>; its Calls has the public calls; its Invariant
--   has the invariant `Inv` (each list holds regions of its depth, and the nodes in the lists are just
--   those that the node allocator gave out) and `cover`, how often a page is free.
-- - PageBroker: PageBroker, over the calls of PageAllocator.
-- - FreeList: IntrusiveFreeList, over a map from addresses to header sizes; `cover` is how often a byte
--   is free, and `IsApart` says that the free blocks do not overlap.
-- - Tasks: Task and TaskManager of kernel/tasks.cpp and kernel/tasks.hpp.
-- - Heap: the bump allocator, the fixed piece and the binder of pine/malloc.hpp, as the heap of a task.
-- - Timer: SystemTimer of kernel/device/bcm2835/timer.cpp.
-- - Strings: pine/c_string.cpp, on lists of bytes.
-- - Hex: to_strbuf_hex of pine/c_string.hpp.
-- - LinkedList: ManualLinkedList on memory, with the pointers of a node as maps on addresses;
--   `Represents` says which sequence a list stands for.
-- - Slab: SlabAllocator of pine/malloc.hpp. Its Scan and Single follow the search for a free bit, its
--   Slots and Nodes fill the interface of PageAllocator, and its Backend runs PageAllocator over it.
-- - Uart: kernel/device/pl011/uart.cpp. A run is a list of events, characters that arrive and interrupts;
--   Writes and Reads have what one interrupt does, WriteRuns and ReadRuns follow a run, and Calls the
--   whole call.
-- - Syscall: kernel/syscall.cpp, pine/cast.hpp and the wrappers of userspace/lib.cpp, over Tasks, Files
--   and Heap.
-- - Numbers: to_strbuf of pine/c_string.hpp. Its Digits has the digits that are written, its Texts the
--   text in the buffer.
-- - Print: vfnprintf of pine/print.hpp over any callback, and vsbufprintf of pine/print.cpp. Its Rounds
--   has the loop by positions in the format, its Directives has `Prints`, the text that a format asks for of
--   its arguments by its chars, and its Prefix what is written to the buffer.
-- - Mmu: kernel/arch/aarch32/mmu.hpp and mmu.cpp. Its Pages has the second-level tables in memory and the
--   record of pages, its Allocator the calls over PageBroker and Slab and the start of the tables; its
--   Writes follows the inner loop, its Walk the walk of both tables.
-- - Userspace: malloc, free and printf of userspace/lib.cpp, over FreeList and Print, on a process that
--   answers `sbrk`.
-- - Display: Display of kernel/device/bcm2835/display.cpp, over any font and mailbox.
-- - Vector: the growth of pine/vector.hpp. BitMap: BitMap of pine/array.hpp, with the
--   lemmas on the bits of a word in its child Bits.
-- - Files: FileTable and FileDescriptorTable of kernel/file.cpp and kernel/file.hpp.
-- - Prelude: shared names and lemmas. Tests, and the modules called Tests: runs at concrete values.
--
-- Conventions. The machine is the 32-bit one: size_t, pointers and unsigned have 32 bits, and their
-- wrap-around is written out. State is passed explicitly. An Option result `none` is undefined
-- behaviour or, on fuel, a loop that has not ended: an index out of bounds, a node removed from a list
-- that does not hold it, a description used after its destructor. A failed call that the code handles is
-- a value of its own.
--
-- Bounds and fuel. `find_from` has 22 rounds, one for each of the 21 depths and the last test.
-- `trim_loop` has two more than the depth it starts at, since a split lowers the depth by one.
-- `log` and `bit_width` have one more than their number, `distance` and `lower_bound` one more than the
-- length. `pick_next_task` takes its rounds as an argument; the theorems give it as many as there are
-- tasks. `catch_up` of the timer has one more than the highest reading.
--
-- The slab allocator's search has one round more than a bitmap has bits, and `add` of it 2 ^ 32 rounds.
-- The theorems on it are for a first page of slots, of which the bit map can address 32.
--
-- `vfnprintf` has one round more than the format has chars. `try_reserve_l2_table_entry` takes how deep its
-- calls nest as an argument.
--
-- `malloc` of a user program takes how deep `malloc` and `printf` call each other as an argument.
--
-- Not modelled: assembly, the registers of devices other than the timer and the UART, the mailbox, the
-- font, the boot code and the exception entry, the printing of the translation tables, the shell, and
-- where a vector's items lie. The UART's waiting for room in `poll_put` is taken to end, and the
-- trap of a system call hands its arguments on. A pointer to a FileDescription is its index in the
-- vector, which holds while the vector does not move its items. What a read or write of a device does to
-- the kernel, the tasks that run while it waits included, is an argument of the model of the system
-- calls. The fallback of a task's heap is what the binder's pointer leads to; in a task of
-- Task::try_create that is a member of a local that has ended.
pub mod Prelude
pub mod Math
pub mod TwoMath
pub mod Region
pub mod Algorithm
pub mod PageAllocator
pub mod PageBroker
pub mod FreeList
pub mod Tasks
pub mod Files
pub mod Heap
pub mod Timer
pub mod Strings
pub mod Hex
pub mod Numbers
pub mod Print
pub mod Vector
pub mod BitMap
pub mod LinkedList
pub mod Slab
pub mod Uart
pub mod Syscall
pub mod Mmu
pub mod Userspace
pub mod Display
pub mod Tests
