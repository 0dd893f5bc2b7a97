-- ===== src/Kernel.antt =====
-- The whole state of the kernel, and the places that the linker decides. The page of a task holds its
-- `struct task_struct` and, at its end, the kernel stack with the trap frame (`struct pt_regs` of
-- arch/riscv/include/proc.h): `task` of the scheduler has the first, `frames` the second, by slot, and
-- `pages` the page's address.
pub mod Fork
pub mod Write
pub mod Handler
pub mod Forked
pub mod Same
pub mod Sound
pub mod Text
pub mod Segfault
mod Examples
use simple_rv64os.Base.{ℕ, ◌-◌, Option}
use simple_rv64os.Base.Arrays.{put}
use simple_rv64os.Base.Word.{add64}
use simple_rv64os.Defs.Numbers.{r_a0}
use simple_rv64os.Firmware.{Calls}
use simple_rv64os.Paging.{Machine}
use simple_rv64os.Rand.{Rand}
use simple_rv64os.Sched.{Sched}
use simple_rv64os.Task.{Task}

pub record PtRegs : Type 0 where
  pub regs : ℕ → ℕ
  pub sepc : ℕ
  pub sstatus : ℕ

pub record Kernel : Type 0 where
  pub machine : Machine
  pub sched : Sched
  pub pages : ℕ → ℕ
  pub frames : ℕ → PtRegs
  pub rand : Rand
  pub calls : Calls

-- Addresses of symbols.
pub record Layout : Type 0 where
  pub ekernel : ℕ
  pub etext : ℕ
  pub erodata : ℕ
  pub swapper_pg_dir : ℕ
  pub uapp_start : ℕ
  pub dummy : ℕ
  pub ret_from_fork : ℕ

abbrev pub get_kernel_pgtbl : Layout → ℕ
get_kernel_pgtbl lay = lay.swapper_pg_dir

unfoldable pub get_cur_task : Kernel → Option Task
get_cur_task k = k.sched.task k.sched.current

-- trap_frame->regs[r_a0 - 1] = v, in the frame of a slot.
unfoldable pub set_a0 : ℕ → ℕ → Kernel → Kernel
set_a0 slot v k =
    let frame = k.frames slot in
    record k { frames = put k.frames slot (record frame { regs = put frame.regs (r_a0 - 1) v }) }

-- trap_frame->sepc += 4
unfoldable pub advance : ℕ → Kernel → Kernel
advance slot k =
    let frame = k.frames slot in
    record k { frames = put k.frames slot (record frame { sepc = add64 frame.sepc 4 }) }
