-- ===== src/Sched/Spent.antt =====
-- One timer interrupt: either the running task loses time, or all tasks are recharged.
use simple_rv64os.Base.{
  ℕ, ◌+◌, ◌*◌, ◌<◌, ◌≤◌, ◌≡◌, ◌≢◌, refl, sym, subst, ◌∙◌, ap, ◌⊎◌, inl, inr, some, arith, ◌==◌,
  if◌then◌else◌, Bool-cases, ne→==, eq→==,
}
use simple_rv64os.Task.{Task}
use simple_rv64os.Sched.{nr_tasks, Slots, Sched, recharge, do_timer}
use simple_rv64os.Sched.Pick.{AllOut, IsChosen, IsPicked}
use simple_rv64os.Sched.Scan.{counter_at, counter_at-some}
use simple_rv64os.Sched.Sound.{IsArray, IsSound, IsArray-IsReady, ticked-IsArray, do_timer-IsSound}
use simple_rv64os.Sched.Timer.{OneTick, goes_on, ends, over, ticked, ticked-some, do_timer-OneTick}
use simple_rv64os.Sched.Total.{total, counter_at-total, total-bound}
use simple_rv64os.Sched.Counters.{
  counter_at-ticked, ticked-others, total-ticked, recharged-least, recharged-most, stays-chosen,
}

-- 1 where the running task is idle or has no time left, so that the next tick only gives way.
unfoldable pub idling : Sched → ℕ
idling s = if s.current == 0 then 1 else if counter_at s.task s.current == 0 then 1 else 0

-- What goes down with every tick, but for one that recharges.
unfoldable pub left_over : Sched → ℕ
left_over s = 2 * total 15 s.task + idling s

-- A tick without a recharge: only the running task loses time.
pub record IsSpent (s s' : Sched) : Type 0 where
  pub less : left_over s' < left_over s
  pub others : (j : ℕ) → j ≢ s.current → counter_at s'.task j ≡ counter_at s.task j

-- A tick that recharges: no other task had time left, and every task has some.
pub record IsRecharged (s s' : Sched) : Type 0 where
  pub out : (j : ℕ) → 1 ≤ j → j < nr_tasks → j ≢ s.current → counter_at s.task j ≡ 0
  pub few : left_over s' ≤ 300
  pub some_time :
      (j : ℕ) (t : Task) → 1 ≤ j → j < nr_tasks → s'.task j ≡ some t → 1 ≤ counter_at s'.task j

pub idling-small : (s : Sched) → idling s ≤ 1
unfolding idling
idling-small s = ground arith

picked-idling : (s : Sched) → IsPicked s.task s.current → idling s ≡ 0
unfolding idling
picked-idling s p =
    rw
      (
        ne→== s.current 0 (λ e. omega (arith, p.low)),
        ne→== (counter_at s.task s.current) 0 (λ e. omega (arith, p.runs)),
      )
      refl

-- What a switch leaves, from the array `x` in which it chose.
chosen :
    (s s' : Sched) (x : Slots)
    → IsArray x
    → ((j : ℕ) → j ≢ s.current → counter_at x j ≡ counter_at s.task j)
    → 2 * total 15 x < left_over s
    → IsChosen x s'.task s'.current
    → IsSpent s s' ⊎ IsRecharged s s'
unfolding left_over AllOut
chosen s s' x a same less c =
    let running = picked-idling s' c.picked in
    elim c.origin [
      | inl kept ↦ inl (record {
        less = omega (arith, running, ap (λ y. total 15 y) kept);
        others = λ j ne. ap (λ y. counter_at y j) kept ∙ same j ne;
      })
      | inr (out, charged) ↦ inr (record {
        out = λ j lo hi ne. sym (same j ne) ∙ out j lo hi;
        few = omega (
          arith,
          running,
          ap (λ y. total 15 y) charged,
          total-bound 15 10 (recharge 15 x) (λ j lo hi. recharged-most x a out j lo (omega arith)),
        );
        some_time = λ j t lo hi at.
            subst (λ y. 1 ≤ counter_at y j) (sym charged)
              (recharged-least x a j t lo (ap (λ y. y j) (sym charged) ∙ at) hi);
      })
    ]

idling-one :
    (s : Sched) (u : Task)
    → s.task s.current ≡ some u
    → (s.current ≡ 0) ⊎ (u.counter ≡ 0)
    → idling s ≡ 1
unfolding idling
idling-one s u at (inl idle) = rw (eq→== s.current 0 idle) refl
idling-one s u at (inr out) = elim (Bool-cases (s.current == 0)) [
  | inl idle ↦ rw idle refl
  | inr busy ↦
      let nothing : counter_at s.task s.current ≡ 0 = counter_at-some s.task s.current u at ∙ out in
      rw (busy, eq→== (counter_at s.task s.current) 0 nothing) refl
]

outcome-goes_on :
    (s : Sched) (u : Task)
    → s.current < nr_tasks
    → s.task s.current ≡ some u
    → s.current ≢ 0
    → 2 ≤ u.counter
    → IsSpent s (record s { task = ticked s u })
unfolding left_over idling
outcome-goes_on s u hi at busy more = record {
  less =
      let left : counter_at (ticked s u) s.current ≢ 0 =
        λ e. omega (arith, counter_at-ticked s u) in
      rw (ne→== s.current 0 busy, ne→== (counter_at (ticked s u) s.current) 0 left)
        (omega (arith, total-ticked s u (omega arith) hi at (omega arith)));
  others = ticked-others s u;
}

outcome :
    (s s' : Sched) (u : Task)
    → IsSound s
    → s.current < nr_tasks
    → s.task s.current ≡ some u
    → OneTick s u s'
    → (s'.current < nr_tasks) × (IsSpent s s' ⊎ IsRecharged s s')
unfolding left_over
outcome s s' u sound hi at (goes_on busy more e) = (
  omega (arith, ap (λ x. x.current) e),
  inl (subst (IsSpent s) (sym e) (outcome-goes_on s u hi at busy more)),
)
outcome s s' u sound hi at (ends busy last c) = (
  c.picked.high,
  chosen s s' (ticked s u) (ticked-IsArray s u at sound.slots) (ticked-others s u)
      (omega (arith, total-ticked s u (omega arith) hi at (omega arith))) c,
)
outcome s s' u sound hi at (over why c) = (
  c.picked.high,
  chosen s s' s.task sound.slots (λ j ne. refl) (omega (arith, idling-one s u at why)) c,
)

-- A tick keeps every task.
stays :
    (s s' : Sched) (u : Task) (i : ℕ) (t : Task)
    → OneTick s u s'
    → 1 ≤ i
    → i < nr_tasks
    → s.task i ≡ some t
    → (t' : Task) × (s'.task i ≡ some t')
stays s s' u i t (goes_on busy more e) lo hi at =
    let (t', at') = ticked-some s u i t at in (t', ap (λ x. x.task i) e ∙ at')
stays s s' u i t (ends busy last c) lo hi at =
    let (t', at') = ticked-some s u i t at in stays-chosen (ticked s u) s' i t' c lo hi at'
stays s s' u i t (over why c) lo hi at = stays-chosen s.task s' i t c lo hi at

-- A tick from a sound state with one of the 16 tasks running.
pub step :
    (s : Sched)
    → IsSound s
    → s.current < nr_tasks
    → (s' : Sched) × (do_timer 2 s ≡ some s')
      × IsSound s'
      × (((s'.current < nr_tasks) × (IsSpent s s' ⊎ IsRecharged s s'))
          × ((i : ℕ) (t : Task)
              → 1 ≤ i
              → i < nr_tasks
              → s.task i ≡ some t
              → (t' : Task) × (s'.task i ≡ some t')))
step s sound hi =
    let (u, at, satp) = sound.runs in
    let (t, at1) = sound.slots.first in
    let (s', e, ready, tick) =
      do_timer-OneTick 0 1 t u s (IsArray-IsReady s.task sound.slots) (omega arith) (omega arith)
        at1 at in
    let (s1, e1, sound1) = do_timer-IsSound 0 s sound in
    let same : ◌≡◌ {A = Sched} s1 s' = cc (sym e1 ∙ e) in
    (
      s',
      e,
      subst IsSound same sound1,
      (outcome s s' u sound hi at tick, λ i t lo hi' there. stays s s' u i t tick lo hi' there),
    )

pub some_left : (s : Sched) → IsSound s → s.current < nr_tasks → 1 ≤ left_over s
unfolding left_over idling
some_left s sound hi = elim (Bool-cases (s.current == 0)) [
  | inl idle ↦ rw idle (omega arith)
  | inr busy ↦ elim (Bool-cases (counter_at s.task s.current == 0)) [
    | inl out ↦ rw (busy, out) (omega arith)
    | inr time ↦
        let away : s.current ≢ 0 = ground arith in
        let more : counter_at s.task s.current ≢ 0 = ground arith in
        omega (arith, counter_at-total 15 s.current s.task (omega arith) (omega arith))
  ]
]
