-- ===== src/Kernel/Sound.antt =====
-- What every trap keeps: the tasks and the page table in use are those of Sched.Sound.
use simple_rv64os.Base.{
  ℕ, suc, ◌-◌, ◌%◌, ◌^◌, ◌≡◌, refl, sym, subst, ◌∙◌, ap, some, Bool, true, false, arith, eq→==,
  ◌==◌, if◌then◌else◌,
}
use simple_rv64os.Base.Arrays.{put, put-put}
use simple_rv64os.Defs.Numbers.{
  r_a0, r_a1, r_a2, r_a7, timer_intr, inst_page_fault, load_page_fault, store_page_fault,
  ecall_from_u_mode, sys_write_id, sys_getpid_id, sys_clone_id,
}
use simple_rv64os.Rand.{widen_int}
use simple_rv64os.Firmware.{clock_set_next_event}
use simple_rv64os.Kernel.{Kernel, Layout, get_cur_task, set_a0, advance}
use simple_rv64os.Kernel.Forked.{IsLowest, or_halt-IsLowest}
use simple_rv64os.Kernel.Fork.{child_task, sys_fork}
use simple_rv64os.Kernel.Handler.{Trap, timer_trap, syscall, trap_handler}
use simple_rv64os.Kernel.Write.{fault_at, sys_write, sys_getpid}
use simple_rv64os.Run.{Run, done, ◌>>=◌}
use simple_rv64os.Run.Always.{
  Always, Always-value, Always-any, Always->>=, Always-option, Always-weaken,
}
use simple_rv64os.Task.{Task}
use simple_rv64os.Sched.{Slots, add_task}
use simple_rv64os.Sched.Sound.{
  IsTaskOf, IsArray, IsSound, put-IsArray, switch_to-IsSound, do_timer-IsSound,
}
use simple_rv64os.Kernel.Same.{Same, Same1, fault_at-Same, sys_write-Same1}

-- The kernel after a trap is sound.
unfoldable pub Sound : Kernel → Type 0
Sound k = IsSound k.sched

Sound1 : ℕ × Kernel → Type 0
Sound1 r = IsSound r.1.sched

set_a0-Sound : (slot v : ℕ) (k : Kernel) → Sound k → Sound (set_a0 slot v k)
unfolding set_a0 Sound
set_a0-Sound slot v k s = s

advance-Sound : (slot : ℕ) (k : Kernel) → Sound k → Sound (advance slot k)
unfolding advance Sound
advance-Sound slot k s = s

forked-IsArray :
    (slots : Slots) (parent child : Task) (pid : ℕ)
    → IsArray slots
    → IsLowest slots parent pid
    → IsTaskOf pid child
    → IsArray (put (add_task slots parent).1 pid (some child))
forked-IsArray slots parent child pid a added v =
    let same : put (add_task slots parent).1 pid (some child) ≡ put slots pid (some child) =
      ap (λ x. put x pid (some child)) added.array ∙ put-put slots pid (some parent) (some child) in
    subst IsArray (sym same) (put-IsArray slots pid child a v)

child_task-IsTaskOf :
    (lay : Layout) (parent : Task) (i pid number child_regs stack table : ℕ)
    → IsTaskOf i parent
    → IsTaskOf pid (child_task lay parent pid number child_regs stack table)
unfolding child_task
child_task-IsTaskOf lay parent i pid number child_regs stack table v = record {
  pid = refl;
  counter_max = v.counter_max;
  priority_max = omega arith;
  priority_min = λ lo. omega arith;
}

sys_fork-Sound1 :
    (lay : Layout) (regs_at stack : ℕ) (k : Kernel)
    → Sound k
    → Always Sound1 (sys_fork lay regs_at stack k)
unfolding sys_fork Sound Sound1 get_cur_task Always
sys_fork-Sound1 lay regs_at stack k s = Always-any Sound1 _ _ (λ page.
    Always-option Sound1 _ _ (λ parent at.
      Always->>= (IsLowest k.sched.task parent) Sound1 _ _ (or_halt-IsLowest k.sched.task parent)
        (λ pid added. Always-any Sound1 _ _ (λ copy. Always-any Sound1 _ _ (λ table.
          Always-any Sound1 _ _ (λ machine. Always-option Sound1 _ _ (λ s' e.
            switch_to-IsSound _ s' pid
              (forked-IsArray k.sched.task parent _ pid s.slots added (
                child_task-IsTaskOf lay parent k.sched.current pid _ _ _ _
                  (s.slots.each k.sched.current parent at)))
              added.high e)))))))

syscall-Sound :
    (lay : Layout) (trap : Trap) (k : Kernel) → Sound k → Always Sound (syscall lay trap k)
unfolding syscall Sound Sound1 Same1
syscall-Sound lay trap k s =
    go (regs (r_a7 - 1) == sys_getpid_id) (regs (r_a7 - 1) == sys_write_id)
      (regs (r_a7 - 1) == sys_clone_id)
  where
    regs : ℕ → ℕ
    regs = (k.frames k.sched.current).regs

    go :
        (g w c : Bool)
        → Always Sound (
            if g
            then (do pid ← sys_getpid k; done (set_a0 k.sched.current pid k))
            else if w
            then (do
              r ←
                  sys_write lay
                    (regs (r_a0 - 1) % 2 ^ 32)
                    (regs (r_a1 - 1))
                    (regs (r_a2 - 1) % 2 ^ 32)
                    k
              done (set_a0 k.sched.current (widen_int (r.0 % 2 ^ 32)) r.1))
            else if c
            then (do
              r ← sys_fork lay trap.frame_at trap.sscratch k
              done (set_a0 k.sched.current r.0 r.1))
            else done k)
    go true w c = Always-any Sound _ _ (λ pid. Always-value Sound _ (set_a0-Sound _ pid k s))
    go false true c =
        Always->>= (Same1 k.sched) Sound _ _ (sys_write-Same1 lay _ _ _ k)
          (λ r same. Always-value Sound _ (set_a0-Sound _ _ r.1 (subst IsSound (sym same) s)))
    go false false true =
        Always->>= Sound1 Sound _ _ (sys_fork-Sound1 lay _ _ k s)
          (λ r sound. Always-value Sound _ (set_a0-Sound _ _ r.1 sound))
    go false false false = Always-value Sound k s

fault_at-Sound :
    (lay : Layout) (addr : ℕ) (k : Kernel) → Sound k → Always Sound (fault_at lay addr k)
unfolding Sound Same
fault_at-Sound lay addr k s =
    Always-weaken (Same k.sched) Sound _ (fault_at-Same lay addr k)
      (λ k' same. subst IsSound (sym same) s)

timer_trap-Sound :
    (f cycles : ℕ) (k : Kernel)
    → Sound k
    → (k' : Kernel) × (timer_trap (suc (suc f)) cycles k ≡ done k') × Sound k'
unfolding timer_trap Sound ◌>>=◌
timer_trap-Sound f cycles k s =
    let (s', e, sound) = do_timer-IsSound f k.sched s in
    (record k { sched = s'; calls = clock_set_next_event cycles k.calls }, rw e refl, sound)

-- A trap, of whatever cause, leaves a sound kernel where it returns.
pub trap_handler-Sound :
    (f : ℕ) (lay : Layout) (trap : Trap) (k : Kernel)
    → Sound k
    → Always Sound (trap_handler (suc (suc f)) lay trap k)
unfolding trap_handler
trap_handler-Sound f lay trap k s =
    go (trap.scause == timer_intr) (trap.scause == inst_page_fault) (trap.scause == load_page_fault)
      (trap.scause == store_page_fault) (trap.scause == ecall_from_u_mode)
  where
    fault : Run Kernel
    fault = fault_at lay trap.stval k

    go :
        (t i l w e : Bool)
        → Always Sound (
            if t
            then timer_trap (suc (suc f)) trap.cycles k
            else if i
            then fault
            else if l
            then fault
            else if w
            then fault
            else if e
            then (do k' ← syscall lay trap k; done (advance k.sched.current k'))
            else done k)
    go true i l w e =
        let (k', returns, sound) = timer_trap-Sound f trap.cycles k s in
        subst (Always Sound) (sym returns) (Always-value Sound k' sound)
    go false true l w e = fault_at-Sound lay trap.stval k s
    go false false true w e = fault_at-Sound lay trap.stval k s
    go false false false true e = fault_at-Sound lay trap.stval k s
    go false false false false true =
        Always->>= Sound Sound _ _ (syscall-Sound lay trap k s)
          (λ k' sound. Always-value Sound _ (advance-Sound k.sched.current k' sound))
    go false false false false false = Always-value Sound k s

-- A timer interrupt returns.
pub timer_trap-returns :
    (f : ℕ) (lay : Layout) (trap : Trap) (k : Kernel)
    → Sound k
    → trap.scause ≡ timer_intr
    → (k' : Kernel) × (trap_handler (suc (suc f)) lay trap k ≡ done k')
unfolding trap_handler
timer_trap-returns f lay trap k s timer =
    let (k', returns, sound) = timer_trap-Sound f trap.cycles k s in
    (k', rw (eq→== trap.scause timer_intr timer) returns)
