-- ===== src/Kernel/Handler.antt =====
-- trap_handler of arch/riscv/kernel/trap.c. What it reads of the processor is its argument: `scause`,
-- the CSRs stval and sscratch, the time, and the address of the trap frame, whose content is the
-- current slot's in `frames`.
use simple_rv64os.Base.{ℕ, ◌-◌, ◌%◌, ◌^◌, ◌==◌, if◌then◌else◌}
use simple_rv64os.Defs.Numbers.{
  r_a0, r_a1, r_a2, r_a7, timer_intr, inst_page_fault, load_page_fault, store_page_fault,
  ecall_from_u_mode, sys_write_id, sys_getpid_id, sys_clone_id,
}
use simple_rv64os.Firmware.{clock_set_next_event}
use simple_rv64os.Kernel.{Kernel, Layout, set_a0, advance}
use simple_rv64os.Kernel.Write.{fault_at, sys_write, sys_getpid}
use simple_rv64os.Kernel.Fork.{sys_fork}
use simple_rv64os.Rand.{widen_int}
use simple_rv64os.Run.{Run, done, of_option, ◌>>=◌}
use simple_rv64os.Sched.{do_timer}

pub record Trap : Type 0 where
  pub scause : ℕ
  pub stval : ℕ
  pub sscratch : ℕ
  pub cycles : ℕ
  pub frame_at : ℕ

unfoldable pub timer_trap : ℕ → ℕ → Kernel → Run Kernel
timer_trap fuel cycles k = do
  let set = record k { calls = clock_set_next_event cycles k.calls }
  sched ← of_option (do_timer fuel set.sched)
  done (record set { sched = sched })

-- The system calls, by their number; any other leaves the registers as they are.
unfoldable pub syscall : Layout → Trap → Kernel → Run Kernel
syscall lay trap k =
    let slot = k.sched.current in
    let regs = (k.frames slot).regs in
    let syscall_id = regs (r_a7 - 1) in
    if syscall_id == sys_getpid_id
    then (do pid ← sys_getpid k; done (set_a0 slot pid k))
    else if syscall_id == sys_write_id
    then (do
      r ← sys_write lay (regs (r_a0 - 1) % 2 ^ 32) (regs (r_a1 - 1)) (regs (r_a2 - 1) % 2 ^ 32) k
      done (set_a0 slot (widen_int (r.0 % 2 ^ 32)) r.1))
    else if syscall_id == sys_clone_id
    then (do r ← sys_fork lay trap.frame_at trap.sscratch k; done (set_a0 slot r.0 r.1))
    else done k

unfoldable pub trap_handler : ℕ → Layout → Trap → Kernel → Run Kernel
trap_handler fuel lay trap k =
    if trap.scause == timer_intr
    then timer_trap fuel trap.cycles k
    else if trap.scause == inst_page_fault
    then fault_at lay trap.stval k
    else if trap.scause == load_page_fault
    then fault_at lay trap.stval k
    else if trap.scause == store_page_fault
    then fault_at lay trap.stval k
    else if trap.scause == ecall_from_u_mode
    then (do k' ← syscall lay trap k; done (advance k.sched.current k'))
    else done k
