-- ===== src/Lib.antt =====
-- SimpleRV64OS, a small kernel for 64-bit RISC-V: a buddy allocator of physical pages, Sv39 page
-- tables, tasks with memory areas that are filled on a page fault, a scheduler driven by the timer, a
-- loader of ELF programs and a formatted print.
--
-- How the parts interact. start_kernel calls mm_init, whose buddy_init takes the pages below the
-- kernel's end, then vm_init, which sets up the page tables, and task_init, which loads the program into
-- the first task. alloc_page and kalloc hand out kernel addresses of pages, which the page tables
-- (map_final_pgtbl) and the tasks use. A task holds its page table and its areas; load_program adds an
-- area for each loadable segment. From then on the kernel runs in trap_handler: a timer interrupt calls
-- do_timer, which calls schedule, which gives the chosen task's page table to the context switch; a page
-- fault looks for the area with find_vma and fills it; a system call writes, gives the pid or forks.
--
-- Files, each with its children:
-- Base: shared names, tests on numbers, 64-bit words, bit masks, arrays, lists; Base.Ctypes has the
--   integer types of arch/riscv/include/stdint.h.
-- Defs: the constants and address macros of arch/riscv/include/defs.h; Defs.Numbers has its plain
--   numbers and those of proc.h and syscall.h. Words are natural numbers below 2 ^ 64, and add64, sub64
--   and mul64 of Base.Word wrap around.
-- Buddy: `struct buddy` of arch/riscv/include/mm.h, and buddy_alloc, buddy_free and fixsize of
--   arch/riscv/kernel/mm.c. The bitmap is a map from indices to words. A loop that goes up to the root
--   runs on the index, which the parent lowers; the one that goes down runs on fuel.
-- Mm: buddy_init and the page interface of the same file. The loop that takes the kernel's own pages
--   has 2 ^ 52 + 1 rounds at most, and as many as there are page frames are enough.
-- Bytes: memset and memcpy of lib/string.c, on a memory of bytes, and its 64-bit words. The `int` that
--   memcpy counts with wraps.
-- Paging: map_early_pgtbl, setup_vm, setup_pte, map_final_pgtbl, is_va_mapped, create_mapping and
--   setup_vm_final of arch/riscv/kernel/vm.c (get_satp is in Sched), over that memory. The loop of
--   setup_vm has one round more than VM_SIZE has gigabytes, and those of create_mapping and
--   setup_vm_final have two more than the size has pages. Paging.Space has the tables below a root as
--   a map from pages to frames and rights.
-- Task: `struct task_struct` (arch/riscv/include/proc.h), `struct vm_area_struct` (include/vma.h),
--   do_mmap, find_vma, load_elf_program (arch/riscv/kernel/proc.c) and load_program. A pointer to an
--   area is its index; the array of areas has no bound, as in the source.
-- Perm: map_vm_perm (include/vma.h), perm_elf2vm, perm_elf2pte and map_elf_perm
--   (arch/riscv/kernel/elfutils.c), is_annoy_vma (arch/riscv/kernel/trap.c).
-- Rand: rand of lib/rand.c.
-- Sched: add_task, schedule_priority, schedule, switch_to and do_timer of arch/riscv/kernel/proc.c, and
--   in Sched.Short assign_counter and schedule_short_first, which PRIO_SCHED turns off; in Sched.Dummy
--   print_task and dummy. A pointer to a task is its slot. The outer loop of schedule_priority takes its
--   number of rounds as an argument, since it need not end: two are enough for tasks in their ranges,
--   because the first leaves each of them time. So does the jump back of schedule_short_first.
-- Printk: vprintfmt and puti of lib/printk.c. The loops over decimal digits have 20 rounds, since a 64-bit
--   number has no more digits. The negation of the least `long` or `int`, which C leaves undefined, wraps.
-- User: vprintfmt and printf of user/printf.c, with a buffer of 1000 bytes, and in User.Programs the
--   programs of user/getpid.c, with their endless loops cut off after a number of rounds.
-- Run: how a piece of the kernel ends: with a value, in halt() of arch/riscv/include/halt.h, or stuck.
--   An allocation that gives NULL, which the source writes through at once, is stuck (Mm.non_null); the
--   fault that the write raises in the kernel is not followed.
-- Firmware: sbi_ecall of arch/riscv/kernel/sbi.c as a list of calls, clock_set_next_event of clock.c,
--   and putc, puts and printk of lib/printk.c over it.
-- Fault: alloc_annoymous_vm and copy_vma_mem of arch/riscv/kernel/vma.c, alloc_elf_mem of elfutils.c and
--   do_page_fault of trap.c. Their loops over pages have two rounds more than the range has pages.
-- Elf: the types of include/elf.h that the loader reads, and load_program on a file's bytes in memory.
-- Kernel: the state of the whole kernel; sys_write, sys_getpid and sys_fork of
--   arch/riscv/kernel/syscall.c and trap_handler of trap.c.
-- Hart: the macros of defs.h that read and write registers, and get_cycles, on a record of registers.
-- Symbols: the functions at the top of arch/riscv/kernel/mm.c.
-- Start: setup_user_pgtbl and task_init of arch/riscv/kernel/proc.c, mm_init, vm_init, start_kernel of
--   init/main.c and the loop of init/test.c.
--
-- Not modelled: assembly (arch/riscv/kernel/head.S, entry.S), which saves the registers of a task and
-- exchanges them at a switch; what the kernel prints on the way, but for the lines of sys_write and
-- start_kernel's greeting; the answers of the firmware and the time, which are arguments, as are the
-- addresses that the linker decides. The tasks and the trap frames are
-- kept apart from the memory of bytes, as are the allocator's bitmap and the kernel's global variables,
-- so a stray write to them is out of reach of the model. The `int` counters of find_vma (over the areas of
-- a task's page), sys_write and alloc_annoymous_vm (over the pages of memory) do not wrap. A read of user
-- memory by the kernel, in sys_write and copy_vma_mem, needs a mapping, but its rights are not looked at.
-- include/elf.h is the C library's; of it only what a loader for this machine meets is used.
pub mod Base
pub mod Defs
pub mod Buddy
pub mod Mm
pub mod Task
pub mod Elf
pub mod Perm
pub mod Sched
pub mod Printk
pub mod Paging
pub mod Bytes
pub mod Rand
pub mod Run
pub mod Firmware
pub mod Fault
pub mod Kernel
pub mod Hart
pub mod Symbols
pub mod Start
pub mod User
