-- ===== src/Kernel/Examples.antt =====
-- System calls and page faults of a small kernel: a task with one page of text.
use simple_rv64os.Base.{
  ℕ, ◌-◌, ◌*◌, ◌/◌, ◌%◌, ◌^◌, ◌≡◌, ◌≢◌, refl, none, some, [], ◌∷◌, ◌++◌, arith, ltb, ◌==◌,
  if◌then◌else◌,
}
use simple_rv64os.Base.Arrays.{put}
use simple_rv64os.Base.Lists.{length}
use simple_rv64os.Buddy.{Buddy, buddy_alloc}
use simple_rv64os.Bytes.{Bytes, load64, load_bytes}
use simple_rv64os.Firmware.Print.{putchar_calls}
use simple_rv64os.Kernel.{Kernel, Layout, get_cur_task}
use simple_rv64os.Defs.Numbers.{load_page_fault}
use simple_rv64os.Fault.{copy_vma_mem, copy_loop}
use simple_rv64os.Kernel.Fork.{fork_loop, sys_fork}
use simple_rv64os.Kernel.Forked.{IsForked, sys_fork-IsForked, sys_fork-full}
use simple_rv64os.Kernel.Handler.{Trap}
use simple_rv64os.Kernel.Write.{mapped_byte, sys_write}
use simple_rv64os.Kernel.Text.{IsText, ended, more, sys_write-IsText}
use simple_rv64os.Mm.{kalloc, alloc_page}
use simple_rv64os.Paging.Walk.{translate, child}
use simple_rv64os.Run.{done, halted, stuck, ◌>>=◌}
use simple_rv64os.Sched.{Slots, get_satp, add_task, free_slot, switch_to}
use simple_rv64os.Defs.{pgrounddown}
use simple_rv64os.Task.{Task, VmArea}

abbrev layout : Layout
layout = record {
  ekernel = 0;
  etext = 0;
  erodata = 0;
  swapper_pg_dir = 0xffff_ffe0_0020_0000;
  uapp_start = 0xffff_ffe0_0030_0000;
  dummy = 17;
  ret_from_fork = 19;
}

-- The page at 0x5000 is mapped to 0x8040_0000, where "Hi" stands at offset 0x123.
abbrev memory : Bytes
memory a =
    if ltb a 0xffff_ffe0_0030_0008
    then 0x200c_0401 / 2 ^ (8 * (a - 0xffff_ffe0_0030_0000)) % 2 ^ 8
    else if ltb a 0xffff_ffe0_0030_1008
    then 0x200c_0801 / 2 ^ (8 * (a - 0xffff_ffe0_0030_1000)) % 2 ^ 8
    else if a == 0xffff_ffe0_0030_2028
    then 0x1f
    else if a == 0xffff_ffe0_0030_202a
    then 0x10
    else if a == 0xffff_ffe0_0030_202b
    then 0x20
    else if a == 0xffff_ffe0_0040_0123
    then 72
    else if a == 0xffff_ffe0_0040_0124
    then 105
    else 0

abbrev area : VmArea
area = record {
  vm_start = 0x5000;
  vm_end = 0x6000;
  vm_flags = 14;
  vm_content_offset_in_file = 0;
  vm_content_size_in_file = 700;
}

abbrev task_of : ℕ → Task
task_of pid = record {
  state = 0;
  counter = 3;
  priority = 5;
  pid = pid;
  thread = record { ra = 0; sp = 0; s = λ i. 0; sepc = 0; sstatus = 0; sscratch = 0 };
  page_table = 0xffff_ffe0_0030_0000;
  vma_cnt = 1;
  vmas = λ i. area;
}

-- Four pages, of which the first is the kernel's.
abbrev tree : ℕ → ℕ
tree i = if i == 0 then 2 else if i == 1 then 1 else if i == 2 then 2 else if i == 3 then 0 else 1

abbrev with_slots : Slots → Kernel
with_slots slots = record {
  machine = record { memory = memory; buddy = record { size = 4; bitmap = tree } };
  sched = record { task = slots; current = 1; satp = get_satp 0xffff_ffe0_0030_0000 };
  pages = λ i. 0xffff_ffe0_0050_0000;
  frames = λ i. record { regs = λ r. r; sepc = 0x5010; sstatus = 0 };
  rand = record { initialize = 1; r = λ i. i; t = 0 };
  calls = [];
}

abbrev running : Kernel
running = with_slots (λ i. if ltb i 2 then some (task_of i) else none)

abbrev load_at : ℕ → Trap
load_at addr = record {
  scause = load_page_fault;
  stval = addr;
  sscratch = 0x3f_ffff_f000;
  cycles = 0;
  frame_at = 0xffff_ffe0_0050_0f00;
}

byte_at :
    (mapped_byte running 0x5123 ≡ some 72)
    × (mapped_byte running 0x5124 ≡ some 105)
    × (mapped_byte running 0x5125 ≡ some 0)
unfolding mapped_byte get_cur_task translate child load64 load_bytes put
byte_at = (refl, refl, refl)

hi : IsText running 0x5123 10 0 (72 ∷ 105 ∷ [])
hi =
    more 9 0 72 _ byte_at.0 (λ e. omega arith)
      (more 8 1 105 _ byte_at.1 (λ e. omega arith) (ended 7 2 byte_at.2))

sys_write-IsText_example :
    (◌≡◌ {A = ℕ} 1 1
      → sys_write layout 1 0x5123 10 running
        ≡ done (
          length {A = ℕ} (72 ∷ 105 ∷ []),
          record running { calls = [] ++ putchar_calls (36 ∷ 32 ∷ 72 ∷ 105 ∷ []) },
        ))
    × (◌≢◌ {A = ℕ} 1 1 → sys_write layout 1 0x5123 10 running ≡ done (0, running))
sys_write-IsText_example = sys_write-IsText layout 1 0x5123 10 (72 ∷ 105 ∷ []) running hi

-- A fork of a task with one area, which is empty.
abbrev forking : Task
forking = record (task_of 1) { vmas = λ i. record area { vm_end = 0x5000 } }

abbrev alone : Kernel
alone = with_slots (λ i. if i == 0 then some (task_of 0) else if i == 1 then some forking else none)

forked : ℕ × Kernel
forked = elim (sys_fork layout 0xffff_ffe0_0050_0f00 0x3f_ffff_f000 alone) [
  | done r ↦ r
  | halted ↦ (0, alone)
  | stuck ↦ (0, alone)
]

forked_lem : sys_fork layout 0xffff_ffe0_0050_0f00 0x3f_ffff_f000 alone ≡ done forked
unfolding forked sys_fork ◌>>=◌ kalloc alloc_page buddy_alloc get_cur_task add_task free_slot
    fork_loop copy_vma_mem copy_loop switch_to pgrounddown put
forked_lem = refl

sys_fork-IsForked_example : IsForked alone forking forked
sys_fork-IsForked_example =
    sys_fork-IsForked layout 0xffff_ffe0_0050_0f00 0x3f_ffff_f000 alone forking forked refl
      forked_lem

-- An array without a free slot.
abbrev crowded : Kernel
crowded = with_slots (λ i. some (task_of i))

sys_fork-full_example : sys_fork layout 0xffff_ffe0_0050_0f00 0x3f_ffff_f000 crowded ≡ halted
sys_fork-full_example =
    sys_fork-full layout 0xffff_ffe0_0050_0f00 0x3f_ffff_f000 crowded page (task_of 1) page_lem refl
      (λ j lo hi free. cc free)
  where
    page : ℕ × Buddy
    page = elim (kalloc crowded.machine.buddy) [ some p ↦ p | none ↦ (0, crowded.machine.buddy) ]

    page_lem : kalloc crowded.machine.buddy ≡ some page
    page_lem = unfold kalloc alloc_page buddy_alloc in refl
