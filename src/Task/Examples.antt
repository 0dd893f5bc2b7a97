-- ===== src/Task/Examples.antt =====
-- Tasks and their areas at concrete inputs.
use simple_rv64os.Base.{
  ℕ, ◌-◌, ◌<◌, ◌≡◌, refl, ◌⊎◌, false, ◌&&◌, none, some, arith, ltb, leb, ◌==◌, if◌then◌else◌, ◌++◌,
}
use simple_rv64os.Base.Arrays.{put}
use simple_rv64os.Base.Word.{add64}
use simple_rv64os.Defs.{user_end, pgsize}
use simple_rv64os.Task.{
  VmArea, Task, do_mmap, covers, find_loop, find_vma, load_loop, load_segment, load_elf_program,
  Elf64Ehdr, Elf64Phdr, load_program,
}
use simple_rv64os.Task.Find.{FirstCover, find_vma-FirstCover, or_new, find_vma-do_mmap}
use simple_rv64os.Task.Load.{areas, segments, areas-load_program}

abbrev no_area : VmArea
no_area = record {
  vm_start = 0;
  vm_end = 0;
  vm_flags = 0;
  vm_content_offset_in_file = 0;
  vm_content_size_in_file = 0;
}

abbrev new_task : Task
new_task = record {
  state = 0;
  counter = 0;
  priority = 3;
  pid = 1;
  thread = record { ra = 0; sp = 0; s = λ i. 0; sepc = 0; sstatus = 0; sscratch = 0 };
  page_table = 0;
  vma_cnt = 0;
  vmas = λ i. no_area;
}

-- The task with its stack.
abbrev with_stack : Task
with_stack = do_mmap new_task (user_end - pgsize) pgsize 7 0 0

abbrev program : Elf64Ehdr
program = record { e_entry = 0x100e8; e_phoff = 64; e_flags = 0; e_phnum = 2 }

abbrev headers : ℕ → Elf64Phdr
headers i = record {
  p_type = if i == 0 then 0 else 1;
  p_flags = 5;
  p_offset = 0x1000;
  p_vaddr = 0x1_0000;
  p_filesz = 0x100;
  p_memsz = 0x200;
}

in_stack : find_vma with_stack (user_end - 1) ≡ some 0
unfolding find_vma find_loop do_mmap put
in_stack = refl

in_program : find_vma (load_program with_stack program headers) 0x1_01ff ≡ some 1
unfolding find_vma find_loop load_program load_elf_program load_loop load_segment do_mmap put
in_program = refl

find_vma-FirstCover_example :
    ((i : ℕ) × (find_vma with_stack 5 ≡ some i) × FirstCover with_stack 5 i)
    ⊎ ((find_vma with_stack 5 ≡ none)
        × ((j : ℕ) → j < with_stack.vma_cnt → covers (with_stack.vmas j) 5 ≡ false))
find_vma-FirstCover_example = find_vma-FirstCover with_stack 5

find_vma-do_mmap_example :
    find_vma (do_mmap with_stack 0x1_0000 0x200 14 0 0) 0x1_0010
    ≡ or_new
        (leb 0x1_0000 0x1_0010 && ltb 0x1_0010 (add64 0x1_0000 0x200))
        with_stack.vma_cnt
        (find_vma with_stack 0x1_0010)
find_vma-do_mmap_example =
    find_vma-do_mmap with_stack 0x1_0010 0x1_0000 0x200 14 0 0 (unfold do_mmap in omega arith)

areas-load_program_example :
    (areas (load_program with_stack program headers) ≡ areas with_stack ++ segments 0 2 headers)
    × ((load_program with_stack program headers).thread.sepc ≡ 0x100e8)
areas-load_program_example =
    areas-load_program with_stack program headers (unfold do_mmap in omega arith)
