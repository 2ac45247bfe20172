-- ===== src/Lib.antt =====
-- Tuna OS: memory, tasks, programs, files and the shell of a small x86-64 kernel.
--
-- The kernel's memory is managed in three layers. kernel/src/pmm.c hands out physical frames from
-- a bitmap; kernel/src/vmm.c builds four-level page tables in such frames; kernel/src/kheap.c
-- maps frames at the heap's addresses and carves blocks from them, for kmalloc and kfree. Files
-- (kernel/src/ramfs.c) are blocks of the heap. The shell (user/shell.c) reads lines of keys and
-- makes system calls. Tasks (kernel/src/task.c) live on the heap and are scheduled from the
-- interrupt of the timer (kernel/src/pit.c). Programs are loaded by kernel/src/elf.c into pages
-- of their own, started by kernel/src/usermode.c or by a system call, and call the kernel through
-- kernel/src/syscall.c. The processor tables and interrupt controllers stand beside these.
--
-- Pmm models pmm.c. Its state is the record `Pmm` of the three static variables; the operations
-- are `pmm_init`, `pmm_alloc_frame`, `pmm_free_frame`, `pmm_get_free_count` and
-- `pmm_get_total_count`. Pmm/Bitmap has the operations on the bitmap, Pmm/Count the invariant,
-- Pmm/Alloc allocation and release, Pmm/Init and Pmm/Counters what initialisation leaves.
-- Vmm models vmm.c. Its state `Memory` adds the words of physical memory, by address, and the
-- roots; the operations are `vmm_init`, `vmm_map_page` and `vmm_unmap_page`. Vmm/Tree has the
-- invariant and the processor's walk `translate`, Vmm/Descend one level of the walk of
-- `vmm_map_page`, Vmm/Map, Vmm/Unmap and Vmm/Init the operations.
-- Kheap models kheap.c. Its state `Kheap` adds the bounds of the heap and the block headers, by
-- address; the operations are `kheap_init`, `kheap_expand`, `kmalloc` and `kfree`. Kheap/Blocks
-- is the abstract heap, a list of blocks; Kheap/Chain relates headers to it, and Kheap/Search,
-- Expand, Malloc, Coalesce, Free and Init the code's walks and operations. Kheap/Live is the
-- heap for its clients, and Kheap/Tables and Backed are about the pages behind it.
-- Ramfs models ramfs.c over Kheap. Its state is the heap and the list of files; the operations
-- are `ramfs_init`, `ramfs_create`, `ramfs_find` and `ramfs_list`; Ramfs/Files is about creation,
-- Ramfs/Find about look-up. Strings has `str_eq`.
-- Shell models user/shell.c: `type_key` and `read_line` the line editor, `run_command` and
-- `shell_round` a turn of its loop, whose system calls are actions. Shell/Line relates the editor
-- to a list of characters and Shell/Round a line to its command.
-- Task models task.c over Kheap. Its state `Tasks` has the static variables, the nodes by address
-- and the words of the stacks; the operations are `task_init`, `task_create`, `task_destroy`,
-- `task_exit` and `schedule`. Task/Lists and Task/Ring have the circular list and its invariant,
-- Task/Freed which pointers are freed, Task/Destroy, Reap, Turn, Schedule, Fair, Insert, Create and Init the operations. Task/Context
-- models kernel/src/switch.S. Pit models pit.c; Pit/Ticks is about the tasks under the timer.
-- Elf models elf.c: `elf_validate`, `load_segment` and `elf_load` over the page tables and the
-- bytes of the frames. Elf/Header is about the images that are refused, Elf/Contents about the
-- bytes of a page, Elf/Segment and Elf/Load about the pages. Vmm/Fresh joins Pmm and Vmm, and
-- Vmm/Range has runs of mappings, which the loader, the stacks and the heap share. Elf/Isolation
-- is about the frames that programs cannot reach.
-- Usermode models usermode.c, with the stack's pages in Usermode/Stack and the outcomes in
-- Usermode/Start. Syscall models syscall.c:
-- its state `System` has the static variables and what stands below, and `syscall_dispatch` goes
-- to the table, to `handle_exec` or to `handle_exit`. Syscall/Protect is about what calls leave
-- alone, Syscall/Exec about the start of a program and Syscall/Exit about its return.
-- Syscall/Isolation has the steps of programs and the kernel in turn, with the states they reach.
-- Kernel models kernel.c: `kernel_main` runs the set-up of each part on one state, `Kernel`, and
-- ends in an `Outcome`. Kernel/SelfTest is about the heap's self-test, Kernel/Pages about the page
-- tables, Kernel/Files about the embedded files, Kernel/Launch about the start of the shell,
-- Kernel/Main about the whole, Kernel/Programs about what follows and Kernel/Descriptors about the
-- tables and the selectors.
-- Idt models idt.c, with handlers and system calls as parameters of `isr_dispatch`; Idt/Gates is
-- what the processor finds in the table and Idt/Report what is reported of an exception. Tss
-- models tss.c. Multiboot models multiboot2.c; Multiboot/Tags relates the walk to a list of tags,
-- and Multiboot/Print is the report of the memory map. Hello models user/hello.c over Syscall.
-- Serial models what kernel/src/serial.c sends, with the waits for the transmitter in Serial/Wait
-- and the digits and lines in Serial/Hex and Serial/Feeds. Gdt models kernel/src/gdt.c with what
-- the processor reads from a descriptor, and Pic models kernel/src/pic.c.
-- Base has the shared helpers: tests on numbers, words with their wrap-around, lists and bits.
-- Each module Tests has concrete states and runs, and Syscall/Runs a run of programs.
--
-- Integers are natural numbers with the wrap-around of their C type written out, but for the end
-- of the heap, which stays below 2 ^ 64 for requests below 2 ^ 62. Loops over a
-- range of known length recur on the rounds left. The loops over the heap run on fuel, one round
-- for each byte of the heap and one more, and `kmalloc` has fuel for 4096 retries; the theorems
-- show that results are reached, so that the fuel is enough. The shell's loops recur on the keys.
-- The walks along the list of tasks have fuel for 2 ^ 20 tasks, more than a heap of 16 MiB holds.
-- The walk over the Multiboot tags takes its fuel as an argument.
--
-- Not modelled: the other messages on the serial line, which only report; instructions that
-- affect the processor's caches; boot code and interrupt stubs in assembly. Physical memory is
-- reachable at its address while tables are built and frames filled; on the machine that holds of
-- all frames until the heap is mapped, and afterwards of those below 2 MiB. The stores of the
-- kernel to its own variables and stack are not stores to frames. The stack pointer that
-- `switch_to` saves in the task that is left is not written to its node. The images of programs
-- stand apart from the frames that the loader fills, and what memory holds behind the data of a
-- file is a parameter. The addresses and the files that the linker provides are parameters of
-- Kernel.
pub mod Base
pub mod Strings
pub mod Serial
pub mod Pmm
pub mod Vmm
pub mod Kheap
pub mod Ramfs
pub mod Shell
pub mod Gdt
pub mod Pic
pub mod Task
pub mod Elf
pub mod Tss
pub mod Pit
pub mod Idt
pub mod Multiboot
pub mod Syscall
pub mod Usermode
pub mod Kernel
pub mod Hello
