-- ===== src/Sched/Timer.antt =====
-- do_timer: the tick of the running task.
use simple_rv64os.Base.{
  ℕ, suc, ◌-◌, ◌^◌, ◌<◌, ◌≤◌, ◌≡◌, ◌≢◌, refl, sym, ◌∙◌, ap, ◌⊎◌, inl, inr, true, false, some, arith,
  ltb, ◌==◌, Bool-cases, eq→==, ne→==,
}
use simple_rv64os.Base.Arrays.{put, put-same, put-other}
use simple_rv64os.Base.Word.{sub64}
use simple_rv64os.Task.{Task}
use simple_rv64os.Sched.{nr_tasks, Slots, Sched, schedule, tick, do_timer}
use simple_rv64os.Sched.Ready.{IsReady}
use simple_rv64os.Sched.Pick.{IsChosen, schedule_lem}

-- The task array with the running task's counter lowered by one.
unfoldable pub ticked : Sched → Task → Slots
ticked s t = put s.task s.current (some (record t { counter = t.counter - 1 }))

pub ticked-IsReady :
    (s : Sched) (t : Task) → s.task s.current ≡ some t → IsReady s.task → IsReady (ticked s t)
unfolding ticked
ticked-IsReady s t at r = record {
  counter_max = λ i u e. elim (Bool-cases (s.current == i)) [
    | inl here ↦
        omega (arith, ap (λ x. x.counter) (lowered i u here e), r.counter_max s.current t at)
    | inr away ↦ r.counter_max i u (kept i u away e)
  ];
  priority_max = λ i u e. elim (Bool-cases (s.current == i)) [
    | inl here ↦
        omega (arith, ap (λ x. x.priority) (lowered i u here e), r.priority_max s.current t at)
    | inr away ↦ r.priority_max i u (kept i u away e)
  ];
  priority_min = λ i u lo e. elim (Bool-cases (s.current == i)) [
    | inl here ↦
        let same : s.current ≡ i = ground arith in
        omega (
          arith,
          ap (λ x. x.priority) (lowered i u here e),
          r.priority_min s.current t (omega arith) at,
        )
    | inr away ↦ r.priority_min i u lo (kept i u away e)
  ];
}
  where
    lowered :
        (i : ℕ) (u : Task)
        → (s.current == i) ≡ true
        → ticked s t i ≡ some u
        → u ≡ record t { counter = t.counter - 1 }
    lowered i u here e =
        let same : s.current ≡ i = ground arith in
        let v : ticked s t s.current ≡ some (record t { counter = t.counter - 1 }) =
          put-same s.task s.current _ in
        cc (sym e ∙ ap (ticked s t) (sym same) ∙ v)

    kept : (i : ℕ) (u : Task) → (s.current == i) ≡ false → ticked s t i ≡ some u → s.task i ≡ some u
    kept i u away e = sym (put-other s.task s.current _ i (ground arith)) ∙ e

-- The running task is not idle and keeps running: more than one tick was left.
pub do_timer-runs :
    (fuel : ℕ) (s : Sched) (t : Task)
    → s.current ≢ 0
    → s.task s.current ≡ some t
    → 2 ≤ t.counter
    → t.counter < 2 ^ 64
    → do_timer fuel s ≡ some (record s { task = ticked s t })
unfolding do_timer tick ticked
do_timer-runs fuel s t busy at left fits =
    let low : sub64 t.counter 1 ≡ t.counter - 1 = omega arith in
    rw
      (
        ne→== s.current 0 busy,
        at,
        ne→== t.counter 0 (omega arith),
        low,
        ne→== (t.counter - 1) 0 (omega arith),
      )
      refl

-- Idle, a task without time left, and one with its last tick: schedule, the last one with counter 0.
pub do_timer-idle : (fuel : ℕ) (s : Sched) → s.current ≡ 0 → do_timer fuel s ≡ schedule fuel s
unfolding do_timer
do_timer-idle fuel s idle = rw (eq→== s.current 0 idle) refl

pub do_timer-out :
    (fuel : ℕ) (s : Sched) (t : Task)
    → s.current ≢ 0
    → s.task s.current ≡ some t
    → t.counter ≡ 0
    → do_timer fuel s ≡ schedule fuel s
unfolding do_timer
do_timer-out fuel s t busy at out = rw (ne→== s.current 0 busy, at, eq→== t.counter 0 out) refl

pub do_timer-last :
    (fuel : ℕ) (s : Sched) (t : Task)
    → s.current ≢ 0
    → s.task s.current ≡ some t
    → t.counter ≡ 1
    → do_timer fuel s ≡ schedule fuel (record s { task = ticked s t })
unfolding do_timer tick ticked
do_timer-last fuel s t busy at one = rw (ne→== s.current 0 busy, at, one) refl

-- The outcomes of a tick while `u` runs.
pub data OneTick (s : Sched) (u : Task) (s' : Sched) : Type 0 where
  goes_on : s.current ≢ 0 → 2 ≤ u.counter → s' ≡ record s { task = ticked s u } → OneTick s u s'
  ends : s.current ≢ 0 → u.counter ≡ 1 → IsChosen (ticked s u) s'.task s'.current → OneTick s u s'
  over : (s.current ≡ 0) ⊎ (u.counter ≡ 0) → IsChosen s.task s'.task s'.current → OneTick s u s'

pub ticked-some :
    (s : Sched) (u : Task) (i : ℕ) (t : Task)
    → s.task i ≡ some t
    → (t' : Task) × (ticked s u i ≡ some t')
unfolding ticked
ticked-some s u i t at = elim (Bool-cases (s.current == i)) [
  | inl here ↦
      let same : s.current ≡ i = ground arith in
      (_, ap (ticked s u) (sym same) ∙ put-same s.task s.current _)
  | inr away ↦ (t, put-other s.task s.current _ i (ground arith) ∙ at)
]

-- With tasks in their ranges, one at least in slots 1 to 15, and `u` the task that runs, do_timer
-- returns within two rounds of schedule and leaves the tasks in their ranges. A task other than idle
-- with more than one tick left goes on with one less; one with its last tick loses it and the next
-- task is chosen among what is left; idle, or a task without time, only gives way to the next task.
pub do_timer-OneTick :
    (f i : ℕ) (t u : Task) (s : Sched)
    → IsReady s.task
    → 1 ≤ i
    → i < nr_tasks
    → s.task i ≡ some t
    → s.task s.current ≡ some u
    → (s' : Sched) × (do_timer (suc (suc f)) s ≡ some s') × IsReady s'.task × OneTick s u s'
do_timer-OneTick f i t u s r lo hi at runs = elim (Bool-cases (s.current == 0)) [
  | inl idle ↦
      let none_runs : s.current ≡ 0 = ground arith in
      gives_way (do_timer-idle (suc (suc f)) s none_runs) (inl none_runs)
  | inr busy ↦
      let away : s.current ≢ 0 = ground arith in
      elim (Bool-cases (ltb 1 u.counter)) [
        | inl more ↦
            let low = r.counter_max s.current u runs in
            (
              record s { task = ticked s u },
              do_timer-runs (suc (suc f)) s u away runs (ground arith) (omega arith),
              ticked-IsReady s u runs r,
              goes_on away (ground arith) refl,
            )
        | inr few ↦ elim (Bool-cases (u.counter == 0)) [
          | inl out ↦
              let nothing : u.counter ≡ 0 = ground arith in
              gives_way (do_timer-out (suc (suc f)) s u away runs nothing) (inr nothing)
          | inr last ↦
              let one : u.counter ≡ 1 = ground arith in
              let (t', at') = ticked-some s u i t at in
              let (s', e, c, (v, there, satp)) =
                schedule_lem f i t' (record s { task = ticked s u }) (ticked-IsReady s u runs r) lo
                  hi at' in
              (s', do_timer-last (suc (suc f)) s u away runs one ∙ e, c.ready, ends away one c)
        ]
      ]
]
  where
    gives_way :
        do_timer (suc (suc f)) s ≡ schedule (suc (suc f)) s
        → (s.current ≡ 0) ⊎ (u.counter ≡ 0)
        → (s' : Sched) × (do_timer (suc (suc f)) s ≡ some s') × IsReady s'.task × OneTick s u s'
    gives_way run why =
        let (s', e, c, (v, there, satp)) = schedule_lem f i t s r lo hi at in
        (s', run ∙ e, c.ready, over why c)
