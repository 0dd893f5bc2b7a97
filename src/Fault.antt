-- ===== src/Fault.antt =====
-- Filling the areas of a task: alloc_annoymous_vm and copy_vma_mem of arch/riscv/kernel/vma.c,
-- alloc_elf_mem, section_pages, set_byte and get_byte of arch/riscv/kernel/elfutils.c, and
-- do_page_fault of arch/riscv/kernel/trap.c. `stval` is the CSR that holds the faulting address, and
-- `uapp_start` the place of the program, which the linker decides. A loop over pages has two rounds more
-- than the range has pages; `stuck` if that did not end it, or if the allocator gave NULL, which the
-- source writes through.
pub mod Rights
pub mod Filled
pub mod Zeros
pub mod Anonym
pub mod Content
pub mod File
pub mod Retry
pub mod Walk
pub mod Copied
pub mod Child
pub mod Area
mod Examples
use simple_rv64os.Base.{
  ℕ, zero, suc, ◌+◌, ◌/◌, ◌%◌, ◌^◌, bit_or, Option, none, some, ltb, if◌then◌else◌,
}
use simple_rv64os.Base.Arrays.{put}
use simple_rv64os.Base.Word.{add64, sub64, mul64}
use simple_rv64os.Bytes.{Bytes, memset, pgcpy}
use simple_rv64os.Defs.{pa2va, pa2va_offset, pg_num, pgsize, pgrounddown, pgroundup, pte_u, pte_v}
use simple_rv64os.Mm.{alloc_pages, kalloc, non_null}
use simple_rv64os.Paging.{Machine, map_final_pgtbl, is_va_mapped, map_loop}
use simple_rv64os.Paging.Walk.{translate}
use simple_rv64os.Perm.{map_vm_perm, is_annoy}
use simple_rv64os.Run.{Run, halted, of_option}
use simple_rv64os.Task.{VmArea, Task, find_vma}

-- map_vm_perm(vma->vm_flags) | PTE_U | PTE_V
abbrev pub area_perm : VmArea → ℕ
area_perm vma = bit_or (bit_or (map_vm_perm vma.vm_flags) pte_u) pte_v

-- for (int i = 0; i < mem_pages; i++), from `i` with `left` rounds to go.
unfoldable pub anonym_loop : ℕ → ℕ → Machine → ℕ → ℕ → ℕ → ℕ → Option Machine
anonym_loop zero i m pgtb va pa perm = some m
anonym_loop (suc left) i m pgtb va pa perm =
    elim (map_final_pgtbl m pgtb (add64 va (mul64 i pgsize)) (add64 pa (mul64 i pgsize)) perm) [
      | none ↦ none
      | some m' ↦ anonym_loop left (i + 1) m' pgtb va pa perm
    ]

unfoldable pub alloc_annoymous_vm : Machine → VmArea → ℕ → Option Machine
alloc_annoymous_vm m vma pgtb =
    let va = pgrounddown vma.vm_start in
    let mem_size = sub64 (pgroundup vma.vm_end) va in
    let mem_pages = pg_num mem_size in
    elim (non_null (alloc_pages m.buddy mem_pages)) [
      | none ↦ none
      | some (real_va, b) ↦
          let cleared = memset m.memory real_va 0 (mul64 mem_pages pgsize) in
          let pa = sub64 real_va pa2va_offset in
          anonym_loop mem_pages 0 (record { memory = cleared; buddy = b }) pgtb va pa
            (area_perm vma)
    ]

-- A page of the running task, at `va` of the table `pgtbl` in use, copied to `dst`: the kernel reads it
-- through that table.
unfoldable pub copy_user_page : Machine → ℕ → ℕ → ℕ → Option Machine
copy_user_page m dst va pgtbl = elim (translate m.memory pgtbl va) [
  | none ↦ none
  | some pa ↦ some (record m { memory = pgcpy m.memory dst (pa2va pa) })
]

-- A mapped page of the parent, copied to a page of its own and mapped for the child.
unfoldable pub copy_page : Machine → VmArea → ℕ → ℕ → ℕ → Option Machine
copy_page m vma parent_table child_table va = elim (non_null (kalloc m.buddy)) [
  | none ↦ none
  | some (real_va, b) ↦ elim (copy_user_page (record m { buddy = b }) real_va va parent_table) [
    | none ↦ none
    | some m' ↦ map_final_pgtbl m' child_table va (sub64 real_va pa2va_offset) (area_perm vma)
  ]
]

unfoldable pub copy_loop : ℕ → Machine → VmArea → ℕ → ℕ → ℕ → Option Machine
copy_loop zero m vma parent_table child_table va = none
copy_loop (suc left) m vma parent_table child_table va =
    let copied : Option Machine =
      if is_va_mapped m.memory va parent_table
      then copy_page m vma parent_table child_table va
      else some m in
    let rest : Option Machine = elim copied [
      | none ↦ none
      | some m' ↦ copy_loop left m' vma parent_table child_table (add64 va pgsize)
    ] in
    if ltb va vma.vm_end then rest else some m

unfoldable pub copy_vma_mem : Machine → VmArea → ℕ → ℕ → Option Machine
copy_vma_mem m vma parent_table child_table =
    let va = pgrounddown vma.vm_start in
    copy_loop (sub64 vma.vm_end va / pgsize + 2) m vma parent_table child_table va

pub record MemSection : Type 0 where
  pub base : ℕ
  pub top : ℕ

unfoldable pub section_pages : MemSection → ℕ
section_pages mem_section = sub64 mem_section.top mem_section.base / pgsize

unfoldable pub set_byte : Bytes → ℕ → ℕ → ℕ → Bytes
set_byte m addr offset byte = put m (add64 addr offset) (byte % 2 ^ 8)

unfoldable pub get_byte : Bytes → ℕ → ℕ → ℕ
get_byte m addr offset = m (add64 addr offset)

-- for (int i = 0; i < file_size; i++), from `i` with `left` bytes to go.
unfoldable pub file_loop : ℕ → ℕ → Bytes → ℕ → ℕ → ℕ → Bytes
unfolding set_byte get_byte
file_loop zero i m start prev_blanks file_seg_start = m
file_loop (suc left) i m start prev_blanks file_seg_start =
    file_loop left (i + 1) (set_byte m start (add64 prev_blanks i) (get_byte m file_seg_start i))
      start prev_blanks file_seg_start

unfoldable pub alloc_elf_mem : Machine → ℕ → ℕ → ℕ → ℕ → ℕ → ℕ → Option Machine
unfolding section_pages file_loop
alloc_elf_mem m file_seg_start file_size mem_size where_to_map pgtbl perm =
    let mapped : MemSection = record {
      base = pgrounddown where_to_map;
      top = pgroundup (add64 where_to_map mem_size);
    } in
    let mem_pages = section_pages mapped in
    elim (non_null (alloc_pages m.buddy mem_pages)) [
      | none ↦ none
      | some (start, b) ↦
          let cleared = memset m.memory start 0 (mul64 mem_pages pgsize) in
          let prev_blanks = sub64 where_to_map mapped.base in
          let filled = file_loop file_size 0 cleared start prev_blanks file_seg_start in
          map_loop (mem_pages + 2) (record { memory = filled; buddy = b }) pgtbl mapped.base
            (sub64 start pa2va_offset) mapped.top perm
    ]

-- A page of the program's file for the page of the address.
unfoldable pub fault_file : ℕ → Machine → Task → VmArea → ℕ → Option Machine
fault_file uapp_start m task target_vma err_addr =
    let file_seg_start = add64 uapp_start target_vma.vm_content_offset_in_file in
    let local_offset = sub64 err_addr target_vma.vm_start in
    let file_page_start = pgrounddown (add64 file_seg_start local_offset) in
    alloc_elf_mem m file_page_start pgsize pgsize (pgrounddown err_addr) task.page_table
      (area_perm target_vma)

unfoldable pub do_page_fault : ℕ → Machine → Task → ℕ → Run Machine
do_page_fault uapp_start m task err_addr = elim (find_vma task err_addr) [
  | none ↦ halted
  | some i ↦
      let target_vma = task.vmas i in
      of_option (
        if is_annoy target_vma.vm_flags
        then alloc_annoymous_vm m target_vma task.page_table
        else fault_file uapp_start m task target_vma err_addr)
]
