-- ===== src/Task.antt =====
-- Tasks and their memory areas: `struct task_struct` of arch/riscv/include/proc.h and
-- `struct vm_area_struct` of include/vma.h, with do_mmap, find_vma and load_elf_program of
-- arch/riscv/kernel/proc.c and load_program of arch/riscv/include/proc.h. The areas are an array
-- without a bound, as in the source; `thread_info` is never used. A pointer to an area is its index.
-- The ELF structures are those of include/elf.h, less the fields the kernel does not read; the program
-- headers are the array that starts at `e_phoff`.
pub mod Find
pub mod Load
mod Examples
use simple_rv64os.Base.{
  ℕ, zero, suc, ◌+◌, ◌-◌, Bool, true, false, ◌&&◌, Option, none, some, ltb, leb, ◌==◌,
  if◌then◌else◌,
}
use simple_rv64os.Base.Arrays.{put}
use simple_rv64os.Base.Word.{add64}
use simple_rv64os.Perm.{perm_elf2vm}

pub record VmArea : Type 0 where
  pub vm_start : ℕ
  pub vm_end : ℕ
  pub vm_flags : ℕ
  pub vm_content_offset_in_file : ℕ
  pub vm_content_size_in_file : ℕ

-- Unused, as the pointer to it in a task.
record ThreadInfo : Type 0 where
  kernel_sp : ℕ
  user_sp : ℕ

pub record Thread : Type 0 where
  pub ra : ℕ
  pub sp : ℕ
  pub s : ℕ → ℕ
  pub sepc : ℕ
  pub sstatus : ℕ
  pub sscratch : ℕ

pub record Task : Type 0 where
  pub state : ℕ
  pub counter : ℕ
  pub priority : ℕ
  pub pid : ℕ
  pub thread : Thread
  pub page_table : ℕ
  pub vma_cnt : ℕ
  pub vmas : ℕ → VmArea

unfoldable pub do_mmap : Task → ℕ → ℕ → ℕ → ℕ → ℕ → Task
do_mmap task addr length flags content_offset content_size = record task {
  vma_cnt = add64 task.vma_cnt 1;
  vmas = put task.vmas task.vma_cnt (record {
    vm_start = addr;
    vm_end = add64 addr length;
    vm_flags = flags;
    vm_content_offset_in_file = content_offset;
    vm_content_size_in_file = content_size;
  });
}

-- addr >= addr_s && addr < addr_e
abbrev pub covers : VmArea → ℕ → Bool
covers area addr = leb area.vm_start addr && ltb addr area.vm_end

-- The loop over the areas from `i` with `left` to go; where it stops.
unfoldable pub find_loop : ℕ → (ℕ → VmArea) → ℕ → ℕ → ℕ
find_loop zero vmas addr i = i
find_loop (suc left) vmas addr i =
    let rest = find_loop left vmas addr (i + 1) in if covers (vmas i) addr then i else rest

-- The index of the area, `none` for NULL.
unfoldable pub find_vma : Task → ℕ → Option ℕ
find_vma task addr =
    let i = find_loop task.vma_cnt task.vmas addr 0 in
    if task.vma_cnt == 0 then none else if i == task.vma_cnt then none else some i

pub record Elf64Ehdr : Type 0 where
  pub e_entry : ℕ
  pub e_phoff : ℕ
  pub e_flags : ℕ
  pub e_phnum : ℕ

pub record Elf64Phdr : Type 0 where
  pub p_type : ℕ
  pub p_flags : ℕ
  pub p_offset : ℕ
  pub p_vaddr : ℕ
  pub p_filesz : ℕ
  pub p_memsz : ℕ

abbrev pub pt_load : ℕ
pt_load = 1

-- The body of the loop over the program headers.
unfoldable pub load_segment : Task → Elf64Phdr → Task
load_segment task phdr =
    if phdr.p_type == pt_load
    then do_mmap task phdr.p_vaddr phdr.p_memsz (perm_elf2vm phdr.p_flags) phdr.p_offset
        phdr.p_filesz
    else task

unfoldable pub load_loop : ℕ → ℕ → (ℕ → Elf64Phdr) → Task → Task
load_loop zero i phdrs task = task
load_loop (suc left) i phdrs task = load_loop left (i + 1) phdrs (load_segment task (phdrs i))

unfoldable pub load_elf_program : Task → Elf64Ehdr → (ℕ → Elf64Phdr) → Task
load_elf_program task ehdr phdrs = load_loop ehdr.e_phnum 0 phdrs task

unfoldable pub load_program : Task → Elf64Ehdr → (ℕ → Elf64Phdr) → Task
load_program task ehdr phdrs =
    let loaded = load_elf_program task ehdr phdrs in
    record loaded { thread = record loaded.thread { sepc = ehdr.e_entry } }
