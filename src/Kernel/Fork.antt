-- ===== src/Kernel/Fork.antt =====
-- sys_fork of arch/riscv/kernel/syscall.c. The child's page is written before anything reads it, so
-- its slot gets the copied task at once. The parent goes on after the switch when it is current again;
-- what sys_fork then returns is the result here. A page that is NULL is stuck where the source first
-- writes to it, which is behind add_task.
use simple_rv64os.Base.{ℕ, zero, suc, ◌+◌, ◌-◌, ◌%◌, ◌^◌, Option, none, some}
use simple_rv64os.Base.Arrays.{put}
use simple_rv64os.Base.Word.{add64, sub64}
use simple_rv64os.Bytes.{pgcpy}
use simple_rv64os.Defs.Numbers.{r_a0, r_sp, priority_max}
use simple_rv64os.Fault.{copy_vma_mem}
use simple_rv64os.Kernel.{PtRegs, Kernel, Layout, get_kernel_pgtbl, get_cur_task}
use simple_rv64os.Mm.{kalloc, non_null}
use simple_rv64os.Paging.{Machine}
use simple_rv64os.Rand.{rand, widen_int}
use simple_rv64os.Run.{Run, done, halted, of_option, ◌>>=◌}
use simple_rv64os.Sched.{add_task, switch_to}
use simple_rv64os.Task.{Task}

-- for (int i = 0; i < child_task->vma_cnt; i++), from `i` with `left` areas to go.
unfoldable pub fork_loop : ℕ → ℕ → Machine → Task → ℕ → ℕ → Option Machine
fork_loop zero i m parent parent_table child_table = some m
fork_loop (suc left) i m parent parent_table child_table =
    elim (copy_vma_mem m (parent.vmas i) parent_table child_table) [
      | none ↦ none
      | some m' ↦ fork_loop left (i + 1) m' parent parent_table child_table
    ]

-- The child's registers: it returns 0, on its own kernel stack, behind the call.
unfoldable pub child_frame : PtRegs → ℕ → PtRegs
child_frame frame child_regs = record frame {
  regs = put (put frame.regs (r_a0 - 1) 0) (r_sp - 1) child_regs;
  sepc = add64 frame.sepc 4;
}

unfoldable pub child_task : Layout → Task → ℕ → ℕ → ℕ → ℕ → ℕ → Task
child_task lay parent pid number child_regs cur_user_stack page_table = record parent {
  pid = pid;
  priority = number % priority_max + 1;
  thread = record parent.thread {
    sp = child_regs;
    ra = lay.ret_from_fork;
    sscratch = cur_user_stack;
  };
  page_table = page_table;
}

-- The result of add_task; -1 halts.
abbrev pub or_halt : Option ℕ → Run ℕ
or_halt none = halted
or_halt (some pid) = done pid

-- `regs_at` is the address of the frame, `cur_user_stack` what the CSR sscratch holds.
unfoldable pub sys_fork : Layout → ℕ → ℕ → Kernel → Run (ℕ × Kernel)
sys_fork lay regs_at cur_user_stack k = do
  page ← of_option (kalloc k.machine.buddy)
  parent ← of_option (get_cur_task k)
  let added = add_task k.sched.task parent
  pid ← or_halt added.0
  copy ← of_option (non_null (some page))
  let drawn = rand k.rand
  let child_regs = add64 copy.0 (sub64 regs_at (k.pages k.sched.current))
  table ← of_option (non_null (kalloc copy.1))
  let memory = pgcpy k.machine.memory table.0 (get_kernel_pgtbl lay)
  machine ← of_option (
      fork_loop parent.vma_cnt 0 (record { memory = memory; buddy = table.1 }) parent
        parent.page_table table.0)
  let child = child_task lay parent pid drawn.0 child_regs cur_user_stack table.0
  sched ← of_option (switch_to (record k.sched { task = put added.1 pid (some child) }) pid)
  done (
    widen_int (parent.pid % 2 ^ 32),
    record k {
      machine = machine;
      sched = sched;
      pages = put k.pages pid copy.0;
      frames = put k.frames pid (child_frame (k.frames k.sched.current) child_regs);
      rand = drawn.1;
    },
  )
