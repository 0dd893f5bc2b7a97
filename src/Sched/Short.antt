-- ===== src/Sched/Short.antt =====
-- assign_counter and schedule_short_first of arch/riscv/kernel/proc.c, which PRIO_SCHED turns off. The
-- jump back to `start` keeps `min_counter_i`, and happens only with `all_zero_flag` 0.
pub mod Least
mod Examples
use simple_rv64os.Base.{
  ℕ, zero, suc, ◌+◌, ◌-◌, ◌%◌, ◌^◌, bit_or, Option, none, some, ltb, ◌==◌, if◌then◌else◌,
}
use simple_rv64os.Base.Arrays.{put}
use simple_rv64os.Defs.Numbers.{max_time}
use simple_rv64os.Rand.{Rand, rand}
use simple_rv64os.Sched.{nr_tasks, Slots, Sched, switch_to}
use simple_rv64os.Task.{Task}

unfoldable pub assign_slot : ℕ → Slots × Rand → Slots × Rand
assign_slot i (slots, g) = elim (slots i) [
  | none ↦ (slots, g)
  | some t ↦
      let drawn = rand g in
      (put slots i (some (record t { counter = drawn.0 % max_time + 1 })), drawn.1)
]

-- From slot `i` with `left` slots to go.
unfoldable pub assign_loop : ℕ → ℕ → Slots × Rand → Slots × Rand
assign_loop zero i sg = sg
assign_loop (suc left) i sg = assign_loop left (i + 1) (assign_slot i sg)

unfoldable pub assign_counter : Slots × Rand → Slots × Rand
assign_counter sg = assign_loop (nr_tasks - 1) 1 sg

-- min_counter_i and all_zero_flag after slot `i`; a NULL in slot `min` is not checked for.
unfoldable pub short_step : Slots → ℕ → ℕ × ℕ → Option (ℕ × ℕ)
short_step slots i (min, flag) = elim (slots i) [
  | none ↦ some (min, flag)
  | some t ↦ elim (slots min) [
    | none ↦ none
    | some u ↦ some (
      if ltb u.counter t.counter then min else i,
      bit_or flag ((2 ^ 64 - 1 - t.counter) % 2 ^ 32),
    )
  ]
]

unfoldable pub short_loop : ℕ → ℕ → Slots → ℕ × ℕ → Option (ℕ × ℕ)
short_loop zero i slots best = some best
short_loop (suc left) i slots best = elim (short_step slots i best) [
  | none ↦ none
  | some best' ↦ short_loop left (i + 1) slots best'
]

-- The label `start`, with the rounds it has.
unfoldable pub short_rounds : ℕ → ℕ → Slots × Rand → Option (ℕ × (Slots × Rand))
short_rounds zero min sg = none
short_rounds (suc fuel) min sg = elim (short_loop (nr_tasks - 1) 1 sg.0 (min, 0)) [
  | none ↦ none
  | some best ↦
      let again = short_rounds fuel best.0 (assign_counter sg) in
      if best.1 == 0 then again else some (best.0, sg)
]

-- current->counter = ~((unsigned long)0)
unfoldable pub hang : Sched → Option Slots
hang s = elim (s.task s.current) [
  | none ↦ none
  | some t ↦ some (put s.task s.current (some (record t { counter = 2 ^ 64 - 1 })))
]

abbrev pub switch_with : Sched → ℕ × (Slots × Rand) → Option (Sched × Rand)
switch_with s (min, (slots, g)) = elim (switch_to (record s { task = slots }) min) [
  | none ↦ none
  | some s' ↦ some (s', g)
]

unfoldable pub schedule_short_first : ℕ → Sched → Rand → Option (Sched × Rand)
schedule_short_first fuel s g = elim (hang s) [
  | none ↦ none
  | some slots ↦ elim (short_rounds fuel 1 (slots, g)) [ none ↦ none | some r ↦ switch_with s r ]
]
