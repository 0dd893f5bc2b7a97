-- ===== src/Fault/Examples.antt =====
-- Page faults of a task with a stack and a program, in a memory of four pages.
use simple_rv64os.Base.{
  ℕ, ◌+◌, ◌-◌, ◌*◌, ◌%◌, ◌^◌, ◌<◌, ◌≤◌, ◌≡◌, refl, some, arith, ltb, if◌then◌else◌,
}
use simple_rv64os.Base.Arrays.{put}
use simple_rv64os.Buddy.{round_request}
use simple_rv64os.Bytes.{Bytes}
use simple_rv64os.Defs.{pgsize, phy_start, user_end}
use simple_rv64os.Fault.{area_perm, do_page_fault}
use simple_rv64os.Fault.Filled.{Filled}
use simple_rv64os.Fault.Retry.{do_page_fault-anonymous, do_page_fault-file}
use simple_rv64os.Mm.Examples.{three_left, three_left-IsBuddy}
use simple_rv64os.Paging.{Machine}
use simple_rv64os.Paging.Walk.{translate}
use simple_rv64os.Paging.Space.{Owner, IsSpace}
use simple_rv64os.Paging.Space.Page.{page_at, free_count}
use simple_rv64os.Paging.Space.Fresh.{root_only, fresh-IsSpace}
use simple_rv64os.Perm.{is_annoy}
use simple_rv64os.Run.{done}
use simple_rv64os.Task.{VmArea, Task, find_vma, find_loop}

-- The program's file at 0x2000, and no memory above it.
abbrev low_file : Bytes
low_file a = if ltb a 0x1_0000 then a % 251 else 0

abbrev machine : Machine
machine = record { memory = low_file; buddy = three_left }

machine-IsSpace : IsSpace 2 machine (page_at 0) (root_only (page_at 0))
machine-IsSpace =
    fresh-IsSpace 2 0 three_left low_file three_left-IsBuddy (omega arith) refl refl
      (λ a lo hi. ground arith) (λ p a within free lo hi. ground arith)

abbrev stack : VmArea
stack = record {
  vm_start = user_end - pgsize;
  vm_end = user_end;
  vm_flags = 7;
  vm_content_offset_in_file = 0;
  vm_content_size_in_file = 0;
}

abbrev program : VmArea
program = record {
  vm_start = 0x100e8;
  vm_end = 0x109e8;
  vm_flags = 14;
  vm_content_offset_in_file = 0xe8;
  vm_content_size_in_file = 0x700;
}

abbrev task : Task
task = record {
  state = 0;
  counter = 1;
  priority = 1;
  pid = 1;
  thread = record { ra = 0; sp = 0; s = λ i. 0; sepc = 0; sstatus = 0; sscratch = 0 };
  page_table = page_at 0;
  vma_cnt = 2;
  vmas = put (λ i. stack) 1 program;
}

in_stack : find_vma task (user_end - 8) ≡ some 0
unfolding find_vma find_loop put
in_stack = refl

in_program : find_vma task 0x10100 ≡ some 1
unfolding find_vma find_loop put
in_program = refl

three_free : free_count 4 2 three_left ≡ 3
unfolding free_count
three_free = refl

one_page : round_request 1 ≡ 1
unfolding round_request
one_page = refl

do_page_fault-anonymous_example :
    (pfn : ℕ) × (m' : Machine) × (owner' : Owner) × (do_page_fault 0x2000 machine task
        (user_end - 8)
      ≡ done m')
    × Filled 2 machine
        (page_at 0)
        (root_only (page_at 0))
        1
        0x3ff_ffff
        pfn
        (area_perm stack)
        m'
        owner'
    × ((b : ℕ) → page_at pfn ≤ b → b < page_at (pfn + 1) → m'.memory b ≡ 0)
    × (translate m'.memory (page_at 0) (user_end - 8)
        ≡ some (phy_start + (pfn + (0x3ff_ffff - 0x3ff_ffff)) * 4096 + 0xff8))
unfolding put
do_page_fault-anonymous_example =
    do_page_fault-anonymous 2 machine (root_only (page_at 0)) task 0x2000 (user_end - 8) 0 in_stack
      (unfold is_annoy in refl) machine-IsSpace (omega arith) (omega arith)
      (omega (arith, one_page)) (omega (arith, one_page, three_free))

do_page_fault-file_example :
    (pfn : ℕ) × (m' : Machine) × (owner' : Owner) × (do_page_fault 0x2000 machine task 0x10100
      ≡ done m')
    × Filled 2 machine (page_at 0) (root_only (page_at 0)) 1 0x10 pfn (area_perm program) m' owner'
    × ((k : ℕ) → k < 4096 → m'.memory (page_at pfn + k) ≡ low_file (0x2000 + k) % 2 ^ 8)
    × (translate m'.memory (page_at 0) 0x10100 ≡ some (phy_start + pfn * 4096 + 0x100))
unfolding put
do_page_fault-file_example =
    do_page_fault-file 2 machine (root_only (page_at 0)) task 0x2000 0x10100 1 in_program
      (unfold is_annoy in refl) machine-IsSpace (omega arith) (omega arith) (omega arith)
      (omega (arith, three_free)) (λ p within free. omega arith)
