-- ===== src/Sched/Short/Least.antt =====
-- The task that schedule_short_first chooses.
use simple_rv64os.Base.{
  ℕ, zero, suc, ◌+◌, ◌-◌, ◌/◌, ◌%◌, ◌^◌, ◌<◌, ◌≤◌, ◌≡◌, ◌≢◌, refl, sym, subst, ◌∙◌, ap, inl, inr,
  none, some, bit_or, true, arith, ltb, ◌==◌, Bool-cases, ne→==, ltb→lt,
}
use simple_rv64os.Base.Arrays.{put, put-same, put-other}
use simple_rv64os.Base.Bits.{or_digit}
use simple_rv64os.Rand.{Rand}
use simple_rv64os.Sched.{nr_tasks, Slots, Sched, get_satp, switch_to}
use simple_rv64os.Sched.Short.{
  short_step, short_loop, short_rounds, hang, switch_with, schedule_short_first,
}
use simple_rv64os.Sched.Slots.{Option-cases}
use simple_rv64os.Sched.Sound.{IsSound}
use simple_rv64os.Task.{Task}

or_ge_below : (k a b : ℕ) → a ≤ k → b ≤ k → (a ≤ bit_or a b) × (b ≤ bit_or a b)
or_ge_below zero a b la lb = (omega arith, omega arith)
or_ge_below (suc k) a b la lb =
    let (left, right) = or_ge_below k (a / 2) (b / 2) (omega arith) (omega arith) in
    (omega (arith, or_digit a b, left), omega (arith, or_digit a b, right))

or_ge : (a b : ℕ) → (a ≤ bit_or a b) × (b ≤ bit_or a b)
or_ge a b = or_ge_below (a + b) a b (omega arith) (omega arith)

-- ~(t->counter), as an `int`.
flag_of : Task → ℕ
flag_of t = (2 ^ 64 - 1 - t.counter) % 2 ^ 32

-- Of the slots from 1 to i - 1, `best.0` has the least counter, and the flags of all are in `best.1`.
record IsLeast (slots : Slots) (i : ℕ) (best : ℕ × ℕ) : Type 0 where
  task : Task
  here : slots best.0 ≡ some task
  low : 1 ≤ best.0
  least : (j : ℕ) (t : Task) → 1 ≤ j → j < i → slots j ≡ some t → task.counter ≤ t.counter
  flags : (j : ℕ) (t : Task) → 1 ≤ j → j < i → slots j ≡ some t → flag_of t ≤ best.1

short_step-IsLeast :
    (slots : Slots) (i : ℕ) (best : ℕ × ℕ)
    → 1 ≤ i
    → IsLeast slots i best
    → (best' : ℕ × ℕ) × (short_step slots i best ≡ some best') × IsLeast slots (i + 1) best'
unfolding short_step flag_of
short_step-IsLeast slots i best lo l = elim (Option-cases (slots i)) [
  | inl empty ↦ (
    best,
    rw (short_step, empty) refl,
    record {
      task = l.task;
      here = l.here;
      low = l.low;
      least = λ j t lo' hi at. l.least j t lo' (inside j t hi at empty) at;
      flags = λ j t lo' hi at. l.flags j t lo' (inside j t hi at empty) at;
    },
  )
  | inr (t, at) ↦
      let flag = bit_or best.1 (flag_of t) in
      let flags' : (j : ℕ) (u : Task) → 1 ≤ j → j < i + 1 → slots j ≡ some u → flag_of u ≤ flag =
        λ j u lo' hi there. elim (Bool-cases (j == i)) [
          | inl e ↦
              omega (arith, ap flag_of (same_task j u t there at e), (or_ge best.1 (flag_of t)).1)
          | inr ne ↦
              omega (arith, l.flags j u lo' (ground arith) there, (or_ge best.1 (flag_of t)).0)
        ] in
      elim (Bool-cases (ltb l.task.counter t.counter)) [
        | inl keep ↦ (
          (best.0, flag),
          rw (short_step, at, l.here, keep) refl,
          record {
            task = l.task;
            here = l.here;
            low = l.low;
            least = λ j u lo' hi there. elim (Bool-cases (j == i)) [
              | inl e ↦ omega (
                arith,
                ap (λ x. x.counter) (same_task j u t there at e),
                ltb→lt l.task.counter t.counter keep,
              )
              | inr ne ↦ l.least j u lo' (ground arith) there
            ];
            flags = flags';
          },
        )
        | inr take ↦ (
          (i, flag),
          rw (short_step, at, l.here, take) refl,
          record {
            task = t;
            here = at;
            low = lo;
            least = λ j u lo' hi there. elim (Bool-cases (j == i)) [
              | inl e ↦ omega (arith, ap (λ x. x.counter) (same_task j u t there at e))
              | inr ne ↦
                  let below : t.counter ≤ l.task.counter = ground arith in
                  omega (arith, l.least j u lo' (ground arith) there)
            ];
            flags = flags';
          },
        )
      ]
]
  where
    inside : (j : ℕ) (t : Task) → j < i + 1 → slots j ≡ some t → slots i ≡ none → j < i
    inside j t hi at empty = elim (Bool-cases (j == i)) [
      | inl e ↦
          let same : j ≡ i = ground arith in absurd (cc (sym empty ∙ ap slots (sym same) ∙ at))
      | inr ne ↦ ground arith
    ]

    same_task : (j : ℕ) (u t : Task) → slots j ≡ some u → slots i ≡ some t → (j == i) ≡ true → u ≡ t
    same_task j u t there at e =
        let same : j ≡ i = ground arith in cc (sym there ∙ ap slots same ∙ at)

short_loop-IsLeast :
    (left i : ℕ) (slots : Slots) (best : ℕ × ℕ)
    → 1 ≤ i
    → IsLeast slots i best
    → (best' : ℕ × ℕ) × (short_loop left i slots best ≡ some best') × IsLeast slots (i + left) best'
unfolding short_loop
short_loop-IsLeast zero i slots best lo l =
    (best, refl, subst (λ n. IsLeast slots n best) (omega arith) l)
short_loop-IsLeast (suc left) i slots best lo l =
    let (b, e, l') = short_step-IsLeast slots i best lo l in
    let (best', e', m) = short_loop-IsLeast left (i + 1) slots b (omega arith) l' in
    (best', rw (short_loop, e) e', subst (λ n. IsLeast slots n best') (omega arith) m)

-- The array while the next task is looked for.
pub hung : Sched → Task → Slots
hung s t = put s.task s.current (some (record t { counter = 2 ^ 64 - 1 }))

hung_first :
    (s : Sched) (t : Task) → (u : Task) × (s.task 1 ≡ some u) → (u : Task) × (hung s t 1 ≡ some u)
unfolding hung
hung_first s t (u, at) = elim (Bool-cases (s.current == 1)) [
  | inl here ↦
      let same : s.current ≡ 1 = ground arith in
      (_, ap (hung s t) (sym same) ∙ put-same s.task s.current _)
  | inr away ↦ (u, put-other s.task s.current _ 1 (ground arith) ∙ at)
]

switch_with_lem :
    (s : Sched) (slots : Slots) (g : Rand) (n : ℕ) (v : Task)
    → slots n ≡ some v
    → switch_with s (n, (slots, g))
      ≡ some (record { task = slots; current = n; satp = get_satp v.page_table }, g)
unfolding switch_to
switch_with_lem s slots g n v there = rw (switch_with, switch_to, there) refl

schedule_short_run :
    (f : ℕ) (s : Sched) (g : Rand) (t : Task) (best : ℕ × ℕ) (v : Task)
    → s.task s.current ≡ some t
    → short_loop 15 1 (hung s t) (1, 0) ≡ some best
    → best.1 ≢ 0
    → hung s t best.0 ≡ some v
    → schedule_short_first (suc f) s g
      ≡ some (record { task = hung s t; current = best.0; satp = get_satp v.page_table }, g)
unfolding schedule_short_first hang hung short_rounds
schedule_short_run f s g t best v at loop flag there =
    rw (schedule_short_first, hang, at, short_rounds, loop, ne→== best.1 0 flag)
      (switch_with_lem s (hung s t) g best.0 v there)

-- In a sound state with a task other than the current one in slots 1 to 15, schedule_short_first needs
-- one round: with the current task's counter at its largest, it switches to a task whose counter is the
-- least of slots 1 to 15, which is another than the current one, and draws no number.
pub schedule_short_first-least :
    (f : ℕ) (s : Sched) (g : Rand) (t u : Task) (i : ℕ)
    → IsSound s
    → s.task s.current ≡ some t
    → 1 ≤ i
    → i < nr_tasks
    → i ≢ s.current
    → s.task i ≡ some u
    → (s' : Sched) × (schedule_short_first (suc f) s g ≡ some (s', g))
      × (s'.task ≡ hung s t)
      × (s'.current ≢ s.current)
      × ((v : Task) × (hung s t s'.current ≡ some v)
          × (s'.satp ≡ get_satp v.page_table)
          × ((j : ℕ) (w : Task)
              → 1 ≤ j
              → j < nr_tasks
              → hung s t j ≡ some w
              → v.counter ≤ w.counter))
unfolding hung flag_of schedule_short_first
schedule_short_first-least f s g t u i sound at lo hi ne there =
    let slots = hung s t in
    let start : IsLeast slots 1 (1, 0) = record {
      task = (hung_first s t sound.slots.first).0;
      here = (hung_first s t sound.slots.first).1;
      low = omega arith;
      least = λ j w lo' hi' at'. absurd (omega arith);
      flags = λ j w lo' hi' at'. absurd (omega arith);
    } in
    let (best, e, l) = short_loop-IsLeast 15 1 slots (1, 0) (omega arith) start in
    let there' : slots i ≡ some u =
      put-other s.task s.current _ i (λ same. ne (sym same)) ∙ there in
    let few = (sound.slots.each i u there).counter_max in
    let flag : best.1 ≢ 0 = λ none_set. omega (arith, l.flags i u lo hi there') in
    (
      record { task = slots; current = best.0; satp = get_satp l.task.page_table },
      schedule_short_run f s g t best l.task at e flag l.here,
      refl,
      λ same.
          let v : ◌≡◌ {A = Task} l.task (record t { counter = 2 ^ 64 - 1 }) =
            cc (sym l.here ∙ ap slots same ∙ put-same s.task s.current _) in
          let most : l.task.counter ≡ 2 ^ 64 - 1 = ap (λ x. x.counter) v in
          omega (arith, l.least i u lo hi there'),
      (l.task, l.here, refl, l.least),
    )
