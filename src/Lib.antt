-- ===== src/Lib.antt =====
-- Verification of parts of the DekOS kernel, a 32-bit x86 operating system in C.
--
-- The parts and how they interact. The physical page allocator hands out 4 KB frames. The kernel heap
-- stands behind the kernel image: a bitmap of 16-byte blocks follows the blocks. The scheduler keeps
-- sixteen process slots, takes memory for the arguments of a process from the heap, and asks the user
-- table whether a user may start a process. The user table compares names and hashes passwords with the
-- functions on text. The resource manager keeps a tree of regions of the heap, each owned by a process,
-- and asks the scheduler which process runs and whether an owner is still there. A FAT volume stands on
-- the sectors of a drive, which the storage manager reads and writes through its driver. The system calls
-- are what a process reaches all of these by: they change the scheduler, the inboxes, the heap and the
-- resources. The page tables take frames from the page allocator, whose bitmap stands in the same memory
-- as they do. The ELF loader copies a file into the heap, relocates it
-- there against the symbols that the kernel has registered, and creates a process. The users are loaded
-- from configuration files, which the ini reader splits into lines with `strtok`.
--
-- The files:
--   Base, Base/*        the shared names, Boolean tests, the result type `Run`, bits of a word,
--                       little-endian words in a byte memory, bitmaps, and integers
--   Arch/Pmm            src/arch/x86/pmm.c
--   Arch/Gdt            src/arch/x86/gdt.c
--   Arch/Paging         src/arch/x86/pde.c
--   Memory/Block        memset, memsetdw and memcpy of src/memory/string.c
--   Memory/Heap         src/memory/alloc.c
--   Memory/Text         the other functions of src/memory/string.c
--   User                src/user/main.c
--   Sched               src/programs/scheduler.c
--   Resource            src/resource/main.c and `RESULT` of src/utils.h
--   Ipc                 the message ring of src/isr/system.c
--   Syscall             `sysReply` of src/isr/system.c
--   Storage             src/drivers/fs/storage.c and src/drivers/fs/file.c, over the IDE driver and
--                       the functions of the current drive on paths as parameters
--   Fat                 src/drivers/fs/fat.c, and `IDEFileSize`, `IDEReadFile` and `IDEWriteFile` of
--                       src/drivers/fs/storage.c
--   Elf                 src/programs/elf/elf.c: Elf the symbols, Elf/Relocate the relocation, Elf/Load
--                       the loading
--   Iso                 src/drivers/fs/iso9660.c, with `cdRead` as a parameter
--   Ini                 src/ini.c, with the reading of a file as a parameter
-- A function of the source keeps its name in snake_case (`schedKillProcess` is `sched_kill_process`); a
-- loop of it is a recursion named for it and ending in `_loop`. Global variables are the fields of a
-- record that a function takes and returns.
--
-- Numbers. `uint32_t` and `size_t` are natural numbers below 2 ^ 32, and every operation of the source
-- that can wrap is taken modulo 2 ^ 32 where it stands; `SIZE` has 64 bits. Memory is a function from
-- addresses to bytes; a bitmap is a function from the index of a word to the word.
--
-- Results. `Run` has the results `ok`, `panicked` (the kernel's `panic`) and `hung` (a loop without end).
-- Loops that can run for ever have a bound on their rounds and give `hung` when it is used up. The search
-- for blocks and the functions that look for a NUL byte get 2 ^ 32 rounds: an index of 32 bits has no
-- more values, so that a loop that goes on has begun again. So do the loops over a list of resources,
-- which is followed for one link for each address; the clean-up, which deletes on its way round, gets
-- 2 ^ 64. The search for the next process gets 16 rounds, which visit every slot; nothing it reads
-- changes while it runs. Writing data to a volume and following a chain of clusters get 2 ^ 32 rounds: each
-- round writes at least one byte of less than 2 ^ 32, and a chain that is longer than there are cluster
-- numbers has come back to where it was. `faulted` is an access through a null pointer, a
-- division by zero, or an access to a slot behind the process table: the word of a process number has 31 bits, and the functions that
-- suspend and resume a process do not compare it with the size of the table.
--
-- Memory. The byte memory of the heap is apart from the kernel's variables (the process table, the users,
-- the inboxes, the list of resources, the bitmap of the heap): what the code writes through an address that
-- its caller gave, it writes to that memory. Some system calls (FETCH, USERNAME, RBLIT, FREE) do not check
-- such an address, so that the code can write over its variables there: what follows from a call that does
-- is not in the model (`IsConfined` of Syscall/Served).
--
-- Not modelled: interrupts and the masking of them, output (printing, the screen, the window managers),
-- input from devices (the keyboard is the sequence of texts typed), the search for devices, the system
-- calls that need files, devices or the program loader (a parameter of Syscall), the path table and the
-- reading of files of an ISO 9660 volume, the processor's walk of the page tables, and the interrupt
-- table.
pub mod Base
pub mod Arch
pub mod Memory
pub mod User
pub mod Sched
pub mod Resource
pub mod Ipc
pub mod Storage
pub mod Fat
pub mod Syscall
pub mod Elf
pub mod Ini
pub mod Iso
