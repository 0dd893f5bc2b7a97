-- ===== src/Sched/Dummy.antt =====
-- print_task and dummy of arch/riscv/kernel/proc.c. `last_counter` is an `int`, so -1 is 2 ^ 32 - 1.
use simple_rv64os.Base.{
  ℕ, ◌+◌, ◌-◌, ◌%◌, ◌^◌, Bool, true, not, Option, none, some, List, [], ◌∷◌, ◌==◌, if◌then◌else◌,
}
use simple_rv64os.Firmware.{Calls, printk}
use simple_rv64os.Printk.{word}
use simple_rv64os.Sched.{widen}
use simple_rv64os.Task.{Task}

-- PID : [%d], counter: [%d], prio: [%d], sp:[%lx], sepc:[%lx]\n
abbrev pub task_line : List ℕ
task_line =
    80 ∷ 73 ∷ 68 ∷ 32 ∷ 58 ∷ 32 ∷ 91 ∷ 37 ∷ 100 ∷ 93 ∷ 44 ∷ 32 ∷ 99 ∷ 111 ∷ 117 ∷ 110 ∷ 116 ∷ 101
    ∷ 114 ∷ 58 ∷ 32 ∷ 91 ∷ 37 ∷ 100 ∷ 93 ∷ 44 ∷ 32 ∷ 112 ∷ 114 ∷ 105 ∷ 111 ∷ 58 ∷ 32 ∷ 91 ∷ 37 ∷ 100
    ∷ 93 ∷ 44 ∷ 32 ∷ 115 ∷ 112 ∷ 58 ∷ 91 ∷ 37 ∷ 108 ∷ 120 ∷ 93 ∷ 44 ∷ 32 ∷ 115 ∷ 101 ∷ 112 ∷ 99 ∷ 58
    ∷ 91 ∷ 37 ∷ 108 ∷ 120 ∷ 93 ∷ 10 ∷ []

-- [PID = %d] is running. auto_inc_local_var = %d\n
abbrev pub dummy_line : List ℕ
dummy_line =
    91 ∷ 80 ∷ 73 ∷ 68 ∷ 32 ∷ 61 ∷ 32 ∷ 37 ∷ 100 ∷ 93 ∷ 32 ∷ 105 ∷ 115 ∷ 32 ∷ 114 ∷ 117 ∷ 110 ∷ 110
    ∷ 105 ∷ 110 ∷ 103 ∷ 46 ∷ 32 ∷ 97 ∷ 117 ∷ 116 ∷ 111 ∷ 95 ∷ 105 ∷ 110 ∷ 99 ∷ 95 ∷ 108 ∷ 111 ∷ 99
    ∷ 97 ∷ 108 ∷ 95 ∷ 118 ∷ 97 ∷ 114 ∷ 32 ∷ 61 ∷ 32 ∷ 37 ∷ 100 ∷ 10 ∷ []

-- The result of printk is not looked at.
abbrev calls_of : Option (ℕ × Calls) → Option Calls
calls_of none = none
calls_of (some (n, calls)) = some calls

unfoldable pub print_task : Task → Calls → Option Calls
print_task t calls = calls_of (
    printk task_line
      (word t.pid ∷ word t.counter ∷ word t.priority ∷ word t.thread.sp ∷ word t.thread.sepc ∷ [])
      calls)

pub record Dummy : Type 0 where
  pub auto_inc_local_var : ℕ
  pub last_counter : ℕ

abbrev pub dummy_mod : ℕ
dummy_mod = 1000000007

abbrev pub dummy_start : Dummy
dummy_start = record { auto_inc_local_var = 0; last_counter = 2 ^ 32 - 1 }

-- last_counter == -1 || current->counter != last_counter
abbrev pub changed : Task → Dummy → Bool
changed t d = if d.last_counter == 2 ^ 32 - 1 then true else not (t.counter == widen d.last_counter)

-- One round of the loop, while `t` is the current task.
unfoldable pub dummy_round : Task → Dummy → Calls → Option (Dummy × Calls)
dummy_round t d calls =
    let value = (d.auto_inc_local_var + 1) % dummy_mod in
    let d' : Dummy = record { auto_inc_local_var = value; last_counter = t.counter % 2 ^ 32 } in
    let printed = printk dummy_line (word t.pid ∷ word value ∷ []) calls in
    if changed t d
    then elim printed [ none ↦ none | some (n, calls') ↦ some (d', calls') ]
    else some (d, calls)
