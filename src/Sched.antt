-- ===== src/Sched.antt =====
-- The task array and the scheduler of arch/riscv/kernel/proc.c: add_task, schedule_priority (which
-- PRIO_SCHED of arch/riscv/include/defs.h selects), switch_to and do_timer. Slot 0 is idle, `none`
-- is NULL; a pointer to a task is its slot. `satp` is the value that __switch_to is given; the
-- registers, which __switch_to exchanges in assembly, and what is printed are left out.
-- A result `none` of a scheduling function is a loop that ran out of fuel, or a NULL dereferenced.
pub mod Slots
pub mod Scan
pub mod Recharge
pub mod Ready
pub mod Pick
pub mod Timer
pub mod Sound
pub mod Total
pub mod Counters
pub mod Spent
pub mod Turn
mod Waiting
pub mod Dummy
pub mod Short
mod Examples
use simple_rv64os.Base.{
  ℕ, zero, suc, ◌+◌, ◌-◌, ◌*◌, ◌/◌, ◌%◌, ◌^◌, bit_or, Bool, true, false, ◌&&◌, Option, none, some,
  ltb, ◌==◌, if◌then◌else◌,
}
use simple_rv64os.Base.Arrays.{put}
use simple_rv64os.Base.Word.{add64, sub64, mul64}
use simple_rv64os.Defs.{pa2va_offset, sv39}
use simple_rv64os.Task.{Task}

abbrev pub nr_tasks : ℕ
nr_tasks = 1 + 15

abbrev pub Slots : Type 0
Slots = ℕ → Option Task

abbrev pub first_task : Slots → Option Task
first_task task = task 0

abbrev pub last_task : Slots → Option Task
last_task task = task (nr_tasks - 1)

pub record Sched : Type 0 where
  pub task : Slots
  pub current : ℕ
  pub satp : ℕ

unfoldable pub get_satp : ℕ → ℕ
get_satp pgtbl = bit_or (mul64 sv39 (2 ^ 60)) (sub64 pgtbl pa2va_offset / 2 ^ 12)

-- The first slot from `i` that is NULL, with `left` slots to go; nr_tasks if there is none.
unfoldable pub free_slot : ℕ → ℕ → Slots → ℕ
free_slot zero i slots = i
free_slot (suc left) i slots = elim (slots i) [ none ↦ i | some t ↦ free_slot left (i + 1) slots ]

-- The slot given, `none` for -1.
unfoldable pub add_task : Slots → Task → Option ℕ × Slots
add_task slots new =
    let i = free_slot (nr_tasks - 2) 2 slots in
    if i == nr_tasks
    then (none, slots)
    else elim (slots i) [ none ↦ (some i, put slots i (some new)) | some t ↦ (none, slots) ]

-- An `int` against a `uint64`: the sign is extended.
abbrev pub widen : ℕ → ℕ
widen c = if ltb c (2 ^ 31) then c else c + (2 ^ 64 - 2 ^ 32)

-- c > 0
abbrev pub positive : ℕ → Bool
positive c = ltb 0 c && ltb c (2 ^ 31)

-- The body of the loop that looks for the largest counter; `c` is an `int`.
unfoldable pub consider : Slots → ℕ → ℕ × ℕ → ℕ × ℕ
consider slots i (c, next) = elim (slots i) [
  | none ↦ (c, next)
  | some t ↦ if ltb (widen c) t.counter then (t.counter % 2 ^ 32, i) else (c, next)
]

-- From slot i down to slot 1.
unfoldable pub scan : ℕ → Slots → ℕ × ℕ → ℕ × ℕ
scan zero slots best = best
scan (suc i) slots best = scan i slots (consider slots (suc i) best)

abbrev pub recharged : Task → Task
recharged t = record t { counter = add64 t.priority (t.counter / 2) }

unfoldable pub recharge_slot : Slots → ℕ → Slots
recharge_slot slots i = elim (slots i) [ none ↦ slots | some t ↦ put slots i (some (recharged t)) ]

-- From slot i down to slot 1.
unfoldable pub recharge : ℕ → Slots → Slots
recharge zero slots = slots
recharge (suc i) slots = recharge i (recharge_slot slots (suc i))

-- The task array and the slot chosen.
unfoldable pub choose : ℕ → Slots → Option (Slots × ℕ)
choose zero slots = none
choose (suc fuel) slots =
    let (c, next) = scan (nr_tasks - 1) slots (0, 0) in
    let rest = choose fuel (recharge (nr_tasks - 1) slots) in
    if positive c then some (slots, next) else rest

unfoldable pub switch_to : Sched → ℕ → Option Sched
switch_to s next = elim (s.task next) [
  | none ↦ none
  | some t ↦ some (record s { current = next; satp = get_satp t.page_table })
]

unfoldable pub switch_chosen : Sched → Option (Slots × ℕ) → Option Sched
switch_chosen s none = none
switch_chosen s (some (slots, next)) = switch_to (record s { task = slots }) next

unfoldable pub schedule_priority : ℕ → Sched → Option Sched
schedule_priority fuel s = switch_chosen s (choose fuel s.task)

unfoldable pub schedule : ℕ → Sched → Option Sched
schedule fuel s = schedule_priority fuel s

-- --current->counter, then schedule() where that is 0.
unfoldable pub tick : ℕ → Sched → Task → Option Sched
tick fuel s t =
    let left = sub64 t.counter 1 in
    let s' = record s { task = put s.task s.current (some (record t { counter = left })) } in
    if left == 0 then schedule fuel s' else some s'

unfoldable pub do_timer : ℕ → Sched → Option Sched
do_timer fuel s = if s.current == 0 then schedule fuel s else elim (s.task s.current) [
  | none ↦ none
  | some t ↦ if t.counter == 0 then schedule fuel s else tick fuel s t
]
