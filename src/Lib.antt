-- ===== src/Lib.antt =====
-- toy-kernel: a verification library for the kernel's own logic.
--
-- The program is a small 32-bit x86 kernel. A timer interrupt (kernel/timer.cpp) drives a round-robin
-- scheduler (kernel/task.cpp), which switches between kernel tasks and user tasks. Each user task has
-- a page directory that is cloned from the kernel's (kernel/paging.cpp). A bitmap with reference counts
-- (kernel/include/paging.h, on kernel/include/bitarray.h) says which 4 MB frames of memory are in use.
--
-- Where a part stands:
--   Base    shared notation, lists and Boolean tests, bit operations, and `Outcome`: a call returns or
--           stops. A failed `assert` and a `PANIC` are `stop`.
--   Bitmap  `toy::BitArray`: an array of bytes as a list. `setOne`, `setZero`, `isSet`, `Reserve` and
--           `GetFirstZero` are set_one, set_zero, is_set, reserve and get_first_zero. The loops count
--           the rounds that are left, which start at the loop's own bound, so they never run out.
--   Task    the scheduler. A task is an address into a table of tasks; ReadyQueue is the list of its
--           nodes' tasks. `InitScheduler`, `KernelTask`, `schedule`, `exit_this_task`, `~Task` and
--           `DestroyScheduler` are init_scheduler, new_kernel_task, schedule, exit_this_task,
--           destroy_task and destroy_scheduler. A context switch ends the call of `schedule`: its
--           result names the routine of kernel/task.S that is jumped to and the registers it loads.
--           What is read in another address space (`Task::Read`) is a parameter, `peek`, which may stop; Users
--           shows that the read of a new task's entry point goes through. A field that a
--           constructor leaves uninitialised takes an arbitrary value, `junk`.
--   Paging  the page directories, PhysicalBitmap and PageDirRegion. `AddPage`, `RemovePage`, `Clone`,
--           `ReclaimPageDirRegion`, `GetPhysicalAddr` and `InitializePaging` are add_page, remove_page,
--           clone, reclaim_page_dir_region, get_physical_addr and initialize_paging. A directory is a
--           function from an index to an entry; directories other than the kernel's are numbered by
--           their place in the page directory region. A reference count has 16 bits and wraps.
--   Heap    `utils::Allocator` (utils/allocator.cpp), and how the kernel's heap (kernel/kmalloc.cpp) and a
--           user program's (libc/umalloc.cpp) grow. The headers are a function of addresses. `Init`,
--           `Malloc`, `Free`, `Realloc`, `Calloc`, `ksbrk` and `usbrk` are init, malloc, free, realloc,
--           calloc, ksbrk and usbrk. `sbrk_` is a parameter that works on a state of its own; IsSbrk is
--           what the allocator takes from it, and the kernel's and the user's both fill it. The loop of
--           `Malloc` has a round for each byte of the heap and three more, that of `Free` one for each
--           byte and one more; every chunk has at least four bytes, and `Malloc` needs two rounds
--           behind the last chunk, so these are enough.
--   Gates   the descriptor tables (kernel/descriptortables.cpp): `GDTSetGate`, `InitGDT`, `WriteTSS`,
--           `IDTSetGate` and `InitIDT` are gdt_gate, init_gdt, write_tss, idt_gate and init_idt. The
--           stubs of kernel/interrupt.S are parameters, by their addresses.
--   Calls   the system calls on pages (kernel/syscall.cpp), on the tasks and the address spaces together:
--           `map_page`, `share_page`, `MapPageFromTask` and `unmap_page` are map_page, share_page,
--           map_page_from_task and unmap_page. A task's page directory is found by its address.
--   Print   the conversions of utils/print.cpp: `PrintHex` and `PrintDecimal` are print_hex_8 to _64,
--           print_decimal_32, _64 and _int32, as the list of the characters that `put` is called with. The
--           loop's fuel is the buffer's room, and a write before the buffer is a stop.
--   Vfs     the tree of files of utils/vfs.cpp: `SimplifyName`, `SplitHead`, `getNode`, `getDir`,
--           `getFile`, `mkdir`, `mkfile`, `IterateUSTAR` and `ParseUSTAR` are simplify_name, split_head,
--           get_node, get_dir, get_file, mkdir, mkfile, iterate_ustar and parse_ustar. A string is the
--           list of its characters, a node is known by its number, and an archive is the list of its
--           bytes: a read behind its end, or before a string, is a stop. The search of a path has a round
--           for each character, the walk over an archive one for each byte, and each round of either
--           takes at least one away.
--   Strings the functions of libc/string.cpp, by their names: memset, memcpy, memmove, strncpy, strlen,
--           strcmp and memcmp. Memory that is written is a function from addresses to bytes; memory that
--           is only compared is the list of the bytes behind a pointer, and a read behind its end is a
--           stop. Vfs compares the magic of a header by memcmp.
--   Terminal  the text terminal (kernel/terminal.cpp): `Terminal::Put`, `PutAt`, `HandleNewline`,
--           `Scroll`, `MoveCursor` and `Terminal::Clear` are put, put_at, handle_newline, scroll,
--           move_cursor and clear_screen, on the characters of the VGA buffer. A write behind the buffer
--           is a stop. The graphics terminal and the serial port's copy of the text are left out.
--   Transfer  `TaskMemcpy` (kernel/task.cpp), by `Task::Write` and `Task::Read`: task_write and task_read
--           copy between the spaces of two tasks through a page that with_window maps and unmaps, over the
--           bytes of physical memory. translate is what the page tables give, and look_up what the
--           processor finds in the space in CR3: `invlpg` drops another page than the one that is unmapped
--           (paging.cpp), so the processor is taken to hold on to every entry that drop_page takes out of
--           the tables while CR3 stays. A page fault is a stop.
--   Users   `UserTask` (kernel/task.cpp): its constructor and destructor are new_user_task, with
--           set_up_stack and load_code, and delete_user_task; `create_user_task`, `destroy_user_task` and
--           `copy_from_task` (kernel/syscall.cpp) have their names. They work on a Machine of Transfer.
--           What kmalloc returns is a parameter.
--   Keyboard  the keyboard's handler (kernel/keyboard.cpp): `KeyboardCallback`, `ShiftedKey` and
--           `kKeyPresses` are keyboard_callback, shifted_key and key_presses. The scancode is an argument,
--           and what is sent to the serial port a list. Keyboard.Layout has the keys that it is compared
--           with.
--   Interrupts  the dispatch (kernel/isr.cpp): `RegisterInterruptHandler`, `UnregisterInterruptHandler`,
--           `GetInterruptHandler`, `isr_handler` and `irq_handler` have their names; a handler is a
--           function on the scheduler and the writes to ports, and may leave by a switch of tasks.
--           Interrupts.Controllers has what the interrupt controllers do with the writes.
--
-- Numbers are natural numbers; a 32-bit or 16-bit value keeps its wrap-around where it is computed.
--
-- Not modelled: device I/O (serial, PIC, PIT, screen), assembly routines, boot code, debug output, and
-- the contents of memory, other than the words that the scheduler reads from a stack.

pub mod Base
pub mod Bitmap
pub mod Calls
pub mod Gates
pub mod Heap
pub mod Interrupts
pub mod Keyboard
pub mod Paging
pub mod Print
pub mod Strings
pub mod Task
pub mod Terminal
pub mod Transfer
pub mod Users
pub mod Vfs
