-- ===== src/Sched/Turn.antt =====
-- Every task gets its turn.
use simple_rv64os.Base.{
  ℕ, zero, suc, ◌+◌, ◌<◌, ◌≤◌, ◌≡◌, ◌≢◌, refl, inl, inr, Option, none, some, arith, ◌==◌,
  Bool-cases,
}
use simple_rv64os.Task.{Task}
use simple_rv64os.Sched.{nr_tasks, Sched, do_timer}
use simple_rv64os.Sched.Scan.{counter_at, counter_at-some, counter_at-none}
use simple_rv64os.Sched.Slots.{Option-cases}
use simple_rv64os.Sched.Sound.{IsSound}
use simple_rv64os.Sched.Total.{counter_at-total, total-bound}
use simple_rv64os.Sched.Spent.{left_over, idling-small, some_left, step}

-- n timer interrupts in a row.
unfoldable pub ticks : ℕ → Sched → Option Sched
ticks zero s = some s
ticks (suc n) s = elim (do_timer 2 s) [ none ↦ none | some s' ↦ ticks n s' ]

-- Slot i comes to run within f ticks.
Comes : ℕ → ℕ → Sched → Type 0
Comes f i s = (n : ℕ) × (n ≤ f) × ((s' : Sched) × (ticks n s ≡ some s') × (s'.current ≡ i))

Comes-now : (f i : ℕ) (s : Sched) → s.current ≡ i → Comes f i s
unfolding Comes ticks
Comes-now f i s e = (0, omega arith, (s, refl, e))

Comes-later : (f i : ℕ) (s s' : Sched) → do_timer 2 s ≡ some s' → Comes f i s' → Comes (suc f) i s
unfolding Comes ticks
Comes-later f i s s' e (n, le, (s1, run, here)) =
    (suc n, omega arith, (s1, rw (ticks, e) run, here))

Comes-more : (f g i : ℕ) (s : Sched) → f ≤ g → Comes f i s → Comes g i s
unfolding Comes
Comes-more f g i s le (n, few, there) = (n, omega arith, there)

-- A task with time left: no recharge can come before its turn.
Comes-with_time :
    (f i : ℕ) (s : Sched)
    → IsSound s
    → s.current < nr_tasks
    → 1 ≤ i
    → i < nr_tasks
    → 1 ≤ counter_at s.task i
    → left_over s ≤ f
    → Comes f i s
unfolding left_over
Comes-with_time zero i s sound hi lo hi' time few =
    absurd (omega (arith, counter_at-total 15 i s.task lo (omega arith)))
Comes-with_time (suc f) i s sound hi lo hi' time few = elim (Bool-cases (s.current == i)) [
  | inl here ↦ Comes-now (suc f) i s (ground arith)
  | inr away ↦
      let ne : i ≢ s.current = ground arith in
      let (s', e, sound', ((below, what), kept)) = step s sound hi in
      elim what [
        | inl spent ↦ Comes-later f i s s' e (
            Comes-with_time f i s' sound' below lo hi' (omega (arith, spent.others i ne))
              (omega (arith, spent.less)))
        | inr again ↦ absurd (omega (arith, again.out i lo hi' ne))
      ]
]

Comes-soon :
    (f i : ℕ) (t : Task) (s : Sched)
    → IsSound s
    → s.current < nr_tasks
    → 1 ≤ i
    → i < nr_tasks
    → s.task i ≡ some t
    → left_over s ≤ f
    → Comes (f + 301) i s
Comes-soon zero i t s sound hi lo hi' at few = absurd (omega (arith, some_left s sound hi))
Comes-soon (suc f) i t s sound hi lo hi' at few = elim (Bool-cases (s.current == i)) [
  | inl here ↦ Comes-now (suc f + 301) i s (ground arith)
  | inr away ↦
      let (s', e, sound', ((below, what), kept)) = step s sound hi in
      let (t', at') = kept i t lo hi' at in
      Comes-more (suc (f + 301)) (suc f + 301) i s (omega arith) (
        Comes-later (f + 301) i s s' e (elim what [
          | inl spent ↦ Comes-soon f i t' s' sound' below lo hi' at' (omega (arith, spent.less))
          | inr again ↦ Comes-more 300 (f + 301) i s' (omega arith) (
              Comes-with_time 300 i s' sound' below lo hi' (again.some_time i t' lo hi' at')
                again.few)
        ]))
]

-- From a sound state, every task in slots 1 to 15 comes to run within 902 timer interrupts, each of which
-- returns.
pub do_timer-Comes :
    (i : ℕ) (t : Task) (s : Sched)
    → IsSound s
    → 1 ≤ i
    → i < nr_tasks
    → s.task i ≡ some t
    → (n : ℕ) × (n ≤ 902) × ((s' : Sched) × (ticks n s ≡ some s') × (s'.current ≡ i))
unfolding Comes left_over
do_timer-Comes i t s sound lo hi' at = Comes-more (601 + 301) 902 i s (omega arith) (
    Comes-soon 601 i t s sound sound.below lo hi' at
      (omega (arith, idling-small s, total-bound 15 20 s.task (λ j a b. each_small j))))
  where
    each_small : (j : ℕ) → counter_at s.task j ≤ 20
    each_small j = elim (Option-cases (s.task j)) [
      | inl empty ↦ omega (arith, counter_at-none s.task j empty)
      | inr (u, there) ↦
          omega (arith, counter_at-some s.task j u there, (sound.slots.each j u there).counter_max)
    ]
