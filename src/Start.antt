-- ===== src/Start.antt =====
-- From the end of the early boot to the first switch: setup_user_pgtbl and task_init of
-- arch/riscv/kernel/proc.c, mm_init of arch/riscv/kernel/mm.c, vm_init of include/vm.h, and start_kernel
-- of init/main.c, whose last call, test of init/test.c, is a loop of its own.
pub mod Boot
pub mod Live
pub mod Tables
mod Examples
mod Loaded
use simple_rv64os.Base.{
  ℕ, zero, suc, ◌+◌, ◌-◌, ◌%◌, ◌^◌, bit_or, List, [], ◌∷◌, Bool, Option, none, some, ◌==◌,
  if◌then◌else◌,
}
use simple_rv64os.Base.Arrays.{put}
use simple_rv64os.Base.Word.{add64}
use simple_rv64os.Buddy.{Buddy}
use simple_rv64os.Bytes.{Bytes, load64, store64}
use simple_rv64os.Defs.{pgsize, user_end}
use simple_rv64os.Defs.Numbers.{
  default_counter, priority_max, sstatus_spie, sstatus_sum, task_running,
}
use simple_rv64os.Firmware.{clock_init, puts}
use simple_rv64os.Kernel.{Kernel, Layout, get_kernel_pgtbl}
use simple_rv64os.Mm.{buddy_init, kalloc, non_null}
use simple_rv64os.Paging.{Machine, entry, setup_vm_final}
use simple_rv64os.Perm.{vm_anonym, vm_r_mask, vm_w_mask}
use simple_rv64os.Rand.{rand}
use simple_rv64os.Run.{Run, done, halted, stuck, of_option, ◌>>=◌}
use simple_rv64os.Sched.{Slots, Sched, get_satp, schedule}
use simple_rv64os.Task.{Task, Elf64Ehdr, Elf64Phdr, do_mmap, load_program}

-- The root entries of the kernel's table, from index `i` with `left` to go.
unfoldable pub share_loop : ℕ → ℕ → Bytes → ℕ → ℕ → Bytes
share_loop zero i m page_table kernel_table = m
share_loop (suc left) i m page_table kernel_table =
    share_loop left (i + 1) (store64 m (entry page_table i) (load64 m (entry kernel_table i)))
      page_table kernel_table

unfoldable pub setup_user_pgtbl : ℕ → Machine → Task → Option (Machine × Task)
setup_user_pgtbl kernel_table m task = elim (non_null (kalloc m.buddy)) [
  | none ↦ none
  | some (page_table, b) ↦ some (
    record { memory = share_loop 512 0 m.memory page_table kernel_table; buddy = b },
    do_mmap (record task { page_table = page_table }) (user_end - pgsize) pgsize
        (bit_or (bit_or vm_r_mask vm_w_mask) vm_anonym) 0 0,
  )
]

-- The idle task, in a page that held `task`.
unfoldable pub init_idle : Task → Task
init_idle task = record task { state = task_running; counter = 0; priority = 0; pid = 0 }

-- The first user task, before its page table and its program.
unfoldable pub init_first : Layout → ℕ → ℕ → Task → Task
init_first lay page number task = record task {
  pid = 1;
  state = task_running;
  counter = default_counter;
  priority = number % priority_max + 1;
  thread = record task.thread { ra = lay.dummy; sp = add64 page pgsize - 1 };
}

unfoldable pub init_status : Task → Task
init_status task = record task {
  thread = record task.thread { sstatus = bit_or sstatus_spie sstatus_sum; sscratch = user_end };
}

abbrev pub null_tasks : Slots
null_tasks i = none

-- `held` is what the pages of the two tasks held, `ehdr` and `phdrs` the program at uapp_start.
unfoldable pub task_init : Layout → Elf64Ehdr → (ℕ → Elf64Phdr) → (ℕ → Task) → Kernel → Run Kernel
task_init lay ehdr phdrs held k = do
  page0 ← of_option (non_null (kalloc k.machine.buddy))
  page1 ← of_option (non_null (kalloc page0.1))
  let drawn = rand k.rand
  let first = init_first lay page1.0 drawn.0 (held 1)
  spaced ←
      of_option
        (setup_user_pgtbl (get_kernel_pgtbl lay) (record k.machine { buddy = page1.1 }) first)
  let loaded = init_status (load_program spaced.1 ehdr phdrs)
  let slots = put (put null_tasks 0 (some (init_idle (held 0)))) 1 (some loaded)
  done (record k {
    machine = spaced.0;
    sched = record k.sched { task = slots; current = 0 };
    pages = put (put k.pages 0 page0.0) 1 page1.0;
    rand = drawn.1;
  })

-- mm_init: the allocator, with its bitmap in words of its own.
unfoldable pub mm_init : Layout → Bytes → Kernel → Run Kernel
mm_init lay bitmap k = do
  made ← of_option (buddy_init lay.ekernel bitmap)
  done (record k { machine = record k.machine { buddy = made.0 } })

-- vm_init: the final table, and satp set to it.
unfoldable pub vm_init : Layout → Kernel → Run Kernel
vm_init lay k = do
  machine ← of_option (setup_vm_final lay.etext lay.erodata lay.swapper_pg_dir k.machine)
  done (record k {
    machine = machine;
    sched = record k.sched { satp = get_satp (get_kernel_pgtbl lay) };
  })

-- start_kernel up to the first switch; `hello` is the line it prints and `cycles` the time.
unfoldable pub start_kernel :
    Layout → Bytes → Elf64Ehdr → (ℕ → Elf64Phdr) → (ℕ → Task) → List ℕ → ℕ → ℕ → Kernel → Run Kernel
start_kernel lay bitmap ehdr phdrs held hello cycles fuel k = do
  with_memory ← mm_init lay bitmap k
  with_tables ← vm_init lay with_memory
  with_tasks ← task_init lay ehdr phdrs held with_tables
  let ready = record with_tasks { calls = puts hello (clock_init cycles with_tasks.calls) }
  sched ← of_option (schedule fuel ready.sched)
  done (record ready { sched = sched })

-- One round of the loop of test(), and whether it prints.
unfoldable pub test_round : ℕ → ℕ × Bool
test_round s =
    let s' = s + 1 in let prints = s' % 100000007 == 0 in (if prints then 0 else s', prints)

-- The state after n rounds.
unfoldable pub test_loop : ℕ → ℕ → ℕ
test_loop zero s = s
test_loop (suc n) s = test_loop n (test_round s).0
