-- ===== src/Start/Boot.antt =====
-- The kernel from its start: what task_init sets up, and what holds after any number of traps.
use simple_rv64os.Base.{
  ℕ, zero, suc, ◌+◌, ◌-◌, bit_or, ◌≡◌, refl, sym, subst, ◌∙◌, ap, inl, inr, Option, none, some,
  List, Bool, true, false, arith, ◌==◌, if◌then◌else◌,
}
use mathlib.Core.Path.{subst₂}
use simple_rv64os.Base.Arrays.{put, put-same}
use simple_rv64os.Bytes.{Bytes}
use simple_rv64os.Defs.Numbers.{timer_intr}
use simple_rv64os.Firmware.{Calls}
use simple_rv64os.Kernel.{PtRegs, Kernel, Layout}
use simple_rv64os.Kernel.Handler.{Trap, trap_handler}
use simple_rv64os.Kernel.Sound.{Sound, trap_handler-Sound, timer_trap-returns}
use simple_rv64os.Buddy.{Buddy}
use simple_rv64os.Defs.{pgsize, user_end}
use simple_rv64os.Mm.{kalloc, non_null}
use simple_rv64os.Perm.{perm_elf2vm, vm_anonym, vm_r_mask, vm_w_mask}
use simple_rv64os.Paging.{Machine}
use simple_rv64os.Run.{done, of_option}
use simple_rv64os.Run.Always.{
  Always, Always-self, Always-value, Always-any, Always-done, Always->>=, Always-of_option,
}
use simple_rv64os.Sched.{Sched, get_satp, schedule}
use simple_rv64os.Sched.Ready.{put-cases}
use simple_rv64os.Sched.Sound.{IsTaskOf, IsArray, IsSound, schedule-IsSound}
use simple_rv64os.Start.{
  share_loop, setup_user_pgtbl, init_idle, init_first, init_status, null_tasks, task_init,
  start_kernel,
}
use simple_rv64os.Task.{
  Task, Elf64Ehdr, Elf64Phdr, pt_load, do_mmap, load_segment, load_loop, load_elf_program,
  load_program,
}

-- Fit for slot 1.
load_segment-IsTaskOf :
    (task : Task) (phdr : Elf64Phdr) → IsTaskOf 1 task → IsTaskOf 1 (load_segment task phdr)
unfolding load_segment do_mmap
load_segment-IsTaskOf task phdr v = go (phdr.p_type == pt_load)
  where
    go :
        (b : Bool)
        → IsTaskOf 1 (
            if b
            then do_mmap task phdr.p_vaddr phdr.p_memsz
                (perm_elf2vm phdr.p_flags)
                phdr.p_offset
                phdr.p_filesz
            else task)
    go true = record {
      pid = v.pid;
      counter_max = v.counter_max;
      priority_max = v.priority_max;
      priority_min = v.priority_min;
    }
    go false = v

load_loop-IsTaskOf :
    (left i : ℕ) (phdrs : ℕ → Elf64Phdr) (task : Task)
    → IsTaskOf 1 task
    → IsTaskOf 1 (load_loop left i phdrs task)
unfolding load_loop
load_loop-IsTaskOf zero i phdrs task v = v
load_loop-IsTaskOf (suc left) i phdrs task v =
    load_loop-IsTaskOf left (i + 1) phdrs (load_segment task (phdrs i))
      (load_segment-IsTaskOf task (phdrs i) v)

loaded-IsTaskOf :
    (task : Task) (ehdr : Elf64Ehdr) (phdrs : ℕ → Elf64Phdr)
    → IsTaskOf 1 task
    → IsTaskOf 1 (init_status (load_program task ehdr phdrs))
unfolding load_program load_elf_program init_status
loaded-IsTaskOf task ehdr phdrs v =
    let w = load_loop-IsTaskOf ehdr.e_phnum 0 phdrs task v in
    record {
      pid = w.pid;
      counter_max = w.counter_max;
      priority_max = w.priority_max;
      priority_min = w.priority_min;
    }

setup_user_pgtbl-IsTaskOf :
    (kernel_table : ℕ) (m : Machine) (task : Task)
    → IsTaskOf 1 task
    → (r : Machine × Task) → setup_user_pgtbl kernel_table m task ≡ some r
    → IsTaskOf 1 r.1
unfolding setup_user_pgtbl do_mmap
setup_user_pgtbl-IsTaskOf kernel_table m task v r e = go (non_null (kalloc m.buddy)) e
  where
    go :
        (o : Option (ℕ × Buddy))
        → (elim o [
          | none ↦ none
          | some (page_table, b) ↦ some (
            record { memory = share_loop 512 0 m.memory page_table kernel_table; buddy = b },
            do_mmap
                (record task { page_table = page_table })
                (user_end - pgsize)
                pgsize
                (bit_or (bit_or vm_r_mask vm_w_mask) vm_anonym)
                0
                0,
          )
        ])
          ≡ some r
        → IsTaskOf 1 r.1
    go none e = absurd (cc e)
    go (some (page_table, b)) e =
        subst (λ x. IsTaskOf 1 (task_of x)) e
          record {
            pid = v.pid;
            counter_max = v.counter_max;
            priority_max = v.priority_max;
            priority_min = v.priority_min;
          }
      where
        task_of : Option (Machine × Task) → Task
        task_of none = task
        task_of (some x) = x.1

two_tasks-IsArray :
    (idle first : Task)
    → IsTaskOf 0 idle
    → IsTaskOf 1 first
    → IsArray (put (put null_tasks 0 (some idle)) 1 (some first))
two_tasks-IsArray idle first v w = record {
  each = λ i t at. elim (put-cases (put null_tasks 0 (some idle)) 1 first i t at) [
    | inl (same, here) ↦ subst₂ (λ x y. IsTaskOf x y) here same w
    | inr old ↦ elim (put-cases null_tasks 0 idle i t old) [
      | inl (same, here) ↦ subst₂ (λ x y. IsTaskOf x y) here same v
      | inr none_there ↦ absurd (cc none_there)
    ]
  ];
  first = (first, put-same (put null_tasks 0 (some idle)) 1 (some first));
}

HasTasks : Kernel → Type 0
HasTasks k = IsArray k.sched.task

task_init-HasTasks :
    (lay : Layout) (ehdr : Elf64Ehdr) (phdrs : ℕ → Elf64Phdr) (held : ℕ → Task) (k : Kernel)
    → Always HasTasks (task_init lay ehdr phdrs held k)
unfolding task_init HasTasks Always init_first init_idle
task_init-HasTasks lay ehdr phdrs held k = Always-any HasTasks _ _ (λ page0.
    Always-any HasTasks _ _ (λ page1.
      Always->>= (λ r. IsTaskOf 1 r.1) HasTasks _ _
        (Always-of_option _ _ (
          setup_user_pgtbl-IsTaskOf _ _ _ record {
            pid = refl;
            counter_max = omega arith;
            priority_max = omega arith;
            priority_min = λ lo. omega arith;
          }))
        (λ spaced v.
          two_tasks-IsArray _ _
            record {
              pid = refl;
              counter_max = omega arith;
              priority_max = omega arith;
              priority_min = λ lo. absurd (omega arith);
            }
            (loaded-IsTaskOf spaced.1 ehdr phdrs v))))

schedule-Always :
    (f : ℕ) (s : Sched) → IsArray s.task → Always IsSound (of_option (schedule (suc (suc f)) s))
schedule-Always f s a =
    let (s', e, sound) = schedule-IsSound f s a in
    Always-of_option IsSound (schedule (suc (suc f)) s)
      (λ s1 e1. let same : ◌≡◌ {A = Sched} s' s1 = cc (sym e ∙ e1) in subst IsSound same sound)

-- The states that the kernel is in between its traps: after the first switch, which follows task_init,
-- whatever mm_init and vm_init left; after the user program has run, which may have changed the memory
-- and its registers, but not the kernel's tasks; and after a trap.
pub data Reached (fuel : ℕ) (lay : Layout) : Kernel → Type 0 where
  started :
      (ehdr : Elf64Ehdr) (phdrs : ℕ → Elf64Phdr) (held : ℕ → Task) (calls : Calls) (k k' : Kernel)
      (s : Sched)
      → task_init lay ehdr phdrs held k ≡ done k'
      → schedule fuel k'.sched ≡ some s
      → Reached fuel lay (record k' { sched = s; calls = calls })
  ran :
      (k : Kernel) (memory : Bytes) (frame : PtRegs)
      → Reached fuel lay k
      → Reached fuel lay (record k {
        machine = record k.machine { memory = memory };
        frames = put k.frames k.sched.current frame;
      })
  trapped :
      (trap : Trap) (k k' : Kernel)
      → Reached fuel lay k
      → trap_handler fuel lay trap k ≡ done k'
      → Reached fuel lay k'

-- What start_kernel ends in is one of them.
pub start_kernel-Reached :
    (lay : Layout) (bitmap : Bytes) (ehdr : Elf64Ehdr) (phdrs : ℕ → Elf64Phdr) (held : ℕ → Task)
    (hello : List ℕ) (cycles fuel : ℕ) (k k' : Kernel)
    → start_kernel lay bitmap ehdr phdrs held hello cycles fuel k ≡ done k'
    → Reached fuel lay k'
unfolding start_kernel
start_kernel-Reached lay bitmap ehdr phdrs held hello cycles fuel k k' e =
    let P = Reached fuel lay in
    Always-done P _ k'
      (Always-any P _ _ (λ with_memory. Always-any P _ _ (λ with_tables.
        Always->>= _ P _ _ (Always-self (task_init lay ehdr phdrs held with_tables))
          (λ with_tasks made.
            Always->>= (λ s. schedule fuel with_tasks.sched ≡ some s) P _ _
              (Always-of_option _ (schedule fuel with_tasks.sched) (λ s at. at))
              (λ s at.
                Always-value P _ (started ehdr phdrs held _ with_tables with_tasks s made at))))))
      e

pub Reached-Sound : (f : ℕ) (lay : Layout) (k : Kernel) → Reached (suc (suc f)) lay k → Sound k
unfolding Sound HasTasks
Reached-Sound f lay k (started ehdr phdrs held calls k0 k1 s made at) =
    let a = Always-done HasTasks _ k1 (task_init-HasTasks lay ehdr phdrs held k0) made in
    Always-done IsSound (of_option (schedule (suc (suc f)) k1.sched)) s
      (schedule-Always f k1.sched a) (ap of_option at)
Reached-Sound f lay k (ran k0 memory frame r) = Reached-Sound f lay k0 r
Reached-Sound f lay k (trapped trap k0 k' r e) =
    Always-done Sound _ k' (trap_handler-Sound f lay trap k0 (Reached-Sound f lay k0 r)) e

-- At all times between traps, from the first switch on and for any traps and any behaviour of the user
-- program: the current slot holds a task, satp selects that task's page table, every task in the array
-- has its slot as its pid, and the next timer interrupt returns within two rounds of schedule.
pub reached-safe :
    (f : ℕ) (lay : Layout) (k : Kernel)
    → Reached (suc (suc f)) lay k
    → ((t : Task) × (k.sched.task k.sched.current ≡ some t)
        × (k.sched.satp ≡ get_satp t.page_table))
      × ((i : ℕ) (t : Task) → k.sched.task i ≡ some t → t.pid ≡ i)
      × ((trap : Trap)
          → trap.scause ≡ timer_intr
          → (k' : Kernel) × (trap_handler (suc (suc f)) lay trap k ≡ done k'))
unfolding Sound
reached-safe f lay k r =
    let s = Reached-Sound f lay k r in
    (
      s.runs,
      λ i t at. (s.slots.each i t at).pid,
      λ trap timer. timer_trap-returns f lay trap k s timer,
    )
