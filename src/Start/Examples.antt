-- ===== src/Start/Examples.antt =====
-- A small start: four pages, a program of one segment, and the first switch.
use simple_rv64os.Base.{ℕ, ◌≤◌, ◌≡◌, refl, arith, ◌==◌, if◌then◌else◌, none, some, []}
use simple_rv64os.Defs.Numbers.{timer_intr}
use simple_rv64os.Kernel.{Kernel, Layout}
use simple_rv64os.Kernel.Handler.{Trap, trap_handler}
use simple_rv64os.Run.{done, halted, stuck, ◌>>=◌}
use simple_rv64os.Sched.{
  Sched, get_satp, schedule, schedule_priority, choose, scan, consider, recharge, recharge_slot,
  switch_chosen, switch_to,
}
use simple_rv64os.Rand.{rand, draw}
use simple_rv64os.Mm.{kalloc, alloc_page}
use simple_rv64os.Buddy.{buddy_alloc}
use simple_rv64os.Base.Arrays.{put}
use simple_rv64os.Start.{
  null_tasks, setup_user_pgtbl, init_idle, init_first, init_status, task_init,
}
use simple_rv64os.Start.Live.{timer_traps, reached-live}
use simple_rv64os.Start.Boot.{started, reached-safe}
use simple_rv64os.Task.{
  load_program, load_elf_program, load_loop, load_segment, do_mmap, Task, VmArea, Elf64Ehdr,
  Elf64Phdr,
}

abbrev pub layout : Layout
layout = record {
  ekernel = 0;
  etext = 0;
  erodata = 0;
  swapper_pg_dir = 0x8020_0000;
  uapp_start = 0x8030_0000;
  dummy = 17;
  ret_from_fork = 19;
}

abbrev blank : VmArea
blank = record {
  vm_start = 0;
  vm_end = 0;
  vm_flags = 0;
  vm_content_offset_in_file = 0;
  vm_content_size_in_file = 0;
}

abbrev held : ℕ → Task
held i = record {
  state = 0;
  counter = 0;
  priority = 0;
  pid = 0;
  thread = record { ra = 0; sp = 0; s = λ i. 0; sepc = 0; sstatus = 0; sscratch = 0 };
  page_table = 0;
  vma_cnt = 0;
  vmas = λ i. blank;
}

abbrev header : Elf64Ehdr
header = record { e_entry = 0x100e8; e_phoff = 64; e_flags = 0; e_phnum = 1 }

abbrev segments : ℕ → Elf64Phdr
segments i = record {
  p_type = 1;
  p_flags = 5;
  p_offset = 0;
  p_vaddr = 0x10000;
  p_filesz = 600;
  p_memsz = 700;
}

-- The tree over four pages, of which the first is the kernel's.
abbrev tree : ℕ → ℕ
tree i = if i == 0 then 2 else if i == 1 then 1 else if i == 2 then 2 else if i == 3 then 0 else 1

abbrev pub before : Kernel
before = record {
  machine = record { memory = λ a. 0; buddy = record { size = 4; bitmap = tree } };
  sched = record { task = null_tasks; current = 0; satp = 0 };
  pages = λ i. 0;
  frames = λ i. record { regs = λ r. 0; sepc = 0; sstatus = 0 };
  rand = record { initialize = 1; r = λ i. i; t = 0 };
  calls = [];
}

made : Kernel
made = elim (task_init layout header segments held before) [
  | done k ↦ k
  | halted ↦ before
  | stuck ↦ before
]

made_lem : task_init layout header segments held before ≡ done made
unfolding made task_init ◌>>=◌ kalloc alloc_page buddy_alloc setup_user_pgtbl
made_lem = refl

switched : Sched
switched = elim (schedule 2 made.sched) [ some s ↦ s | none ↦ made.sched ]

switched_lem : schedule 2 made.sched ≡ some switched
unfolding made switched task_init schedule ◌>>=◌ kalloc alloc_page buddy_alloc setup_user_pgtbl
    schedule_priority choose scan consider recharge recharge_slot switch_chosen switch_to put
    init_status init_first init_idle load_program load_elf_program load_loop load_segment do_mmap
    rand draw
switched_lem = refl

-- The user's task, in slot 1.
first : Task
first = elim (switched.task 1) [ some t ↦ t | none ↦ held 1 ]

first_lem : switched.task 1 ≡ some first
unfolding first made switched task_init schedule ◌>>=◌ kalloc alloc_page buddy_alloc
    setup_user_pgtbl schedule_priority choose scan consider recharge recharge_slot switch_chosen
    switch_to put init_status init_first init_idle load_program load_elf_program load_loop
    load_segment do_mmap rand draw
first_lem = refl

-- The state after the first switch, with the user program in its first task.
reached-safe_example :
    ((t : Task) × (switched.task switched.current ≡ some t)
      × (switched.satp ≡ get_satp t.page_table))
    × ((i : ℕ) (t : Task) → switched.task i ≡ some t → t.pid ≡ i)
    × ((trap : Trap)
        → trap.scause ≡ timer_intr
        → (k' : Kernel) × (trap_handler 2 layout trap (record made { sched = switched; calls = [] })
            ≡ done k'))
reached-safe_example =
    reached-safe 0 layout (record made { sched = switched; calls = [] })
      (started header segments held [] before made switched made_lem switched_lem)

abbrev timer : Trap
timer = record { scause = timer_intr; stval = 0; sscratch = 0; cycles = 1000; frame_at = 0 }

reached-live_example :
    (n : ℕ) × (n ≤ 902)
    × ((k' : Kernel) × (timer_traps n layout
            (λ m. timer)
            (record made { sched = switched; calls = [] })
          ≡ done k')
        × (k'.sched.current ≡ 1))
reached-live_example =
    reached-live layout (λ m. timer) (record made { sched = switched; calls = [] }) 1 first
      (started header segments held [] before made switched made_lem switched_lem) (λ m. refl)
      (omega arith) (omega arith) first_lem
