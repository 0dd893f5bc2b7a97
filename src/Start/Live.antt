-- ===== src/Start/Live.antt =====
-- Every task of a running kernel gets its turn.
use simple_rv64os.Base.{ℕ, zero, suc, ◌<◌, ◌≤◌, ◌≡◌, refl, ◌∙◌, ap, Option, none, some, eq→==}
use simple_rv64os.Defs.Numbers.{timer_intr}
use simple_rv64os.Firmware.{clock_set_next_event}
use simple_rv64os.Kernel.{Kernel, Layout}
use simple_rv64os.Kernel.Handler.{Trap, timer_trap, trap_handler}
use simple_rv64os.Kernel.Sound.{Sound}
use simple_rv64os.Run.{Run, done, ◌>>=◌}
use simple_rv64os.Sched.{nr_tasks, Sched, do_timer}
use simple_rv64os.Sched.Turn.{ticks, do_timer-Comes}
use simple_rv64os.Start.Boot.{Reached, Reached-Sound}
use simple_rv64os.Task.{Task}

-- n timer interrupts in a row.
unfoldable pub timer_traps : ℕ → Layout → (ℕ → Trap) → Kernel → Run Kernel
timer_traps zero lay traps k = done k
timer_traps (suc n) lay traps k = trap_handler 2 lay (traps n) k >>= timer_traps n lay traps

trap_handler-timer :
    (lay : Layout) (trap : Trap) (k : Kernel) (s : Sched)
    → trap.scause ≡ timer_intr
    → do_timer 2 k.sched ≡ some s
    → trap_handler 2 lay trap k
      ≡ done (record k { sched = s; calls = clock_set_next_event trap.cycles k.calls })
unfolding trap_handler timer_trap ◌>>=◌
trap_handler-timer lay trap k s timer e = rw (eq→== trap.scause timer_intr timer, e) refl

timer_traps-ticks :
    (n : ℕ) (lay : Layout) (traps : ℕ → Trap) (k : Kernel) (s : Sched)
    → ((m : ℕ) → (traps m).scause ≡ timer_intr)
    → ticks n k.sched ≡ some s
    → (k' : Kernel) × (timer_traps n lay traps k ≡ done k') × (k'.sched ≡ s)
unfolding ticks timer_traps ◌>>=◌
timer_traps-ticks zero lay traps k s timer e = (k, refl, cc e)
timer_traps-ticks (suc n) lay traps k s timer e =
    go (do_timer 2 k.sched) refl e (λ k1 e1. timer_traps-ticks n lay traps k1 s timer e1)
  where
    go :
        (o : Option Sched)
        → do_timer 2 k.sched ≡ o
        → (elim o [ none ↦ none | some s1 ↦ ticks n s1 ]) ≡ some s
        → ((k1 : Kernel)
            → ticks n k1.sched ≡ some s
            → (k' : Kernel) × (timer_traps n lay traps k1 ≡ done k') × (k'.sched ≡ s))
        → (k' : Kernel) × ((trap_handler 2 lay (traps n) k >>= timer_traps n lay traps) ≡ done k')
          × (k'.sched ≡ s)
    go none at e again = absurd (cc e)
    go (some s1) at e again =
        let (k', run, same) =
          again (record k { sched = s1; calls = clock_set_next_event (traps n).cycles k.calls })
            e in
        (k', rw (trap_handler-timer lay (traps n) k s1 (timer n) at) run, same)

-- From any state that the kernel reaches, with two rounds of schedule at each tick, every task in slots
-- 1 to 15 comes to run within 902 timer interrupts, each of which returns.
pub reached-live :
    (lay : Layout) (traps : ℕ → Trap) (k : Kernel) (i : ℕ) (t : Task)
    → Reached 2 lay k
    → ((m : ℕ) → (traps m).scause ≡ timer_intr)
    → 1 ≤ i
    → i < nr_tasks
    → k.sched.task i ≡ some t
    → (n : ℕ) × (n ≤ 902)
      × ((k' : Kernel) × (timer_traps n lay traps k ≡ done k') × (k'.sched.current ≡ i))
unfolding Sound
reached-live lay traps k i t reached timer lo hi at =
    let (n, few, (s, run, here)) =
      do_timer-Comes i t k.sched (Reached-Sound 0 lay k reached) lo hi at in
    let (k', e, same) = timer_traps-ticks n lay traps k s timer run in
    (n, few, (k', e, ap (λ x. x.current) same ∙ here))
