-- ===== src/Sched/Sound.antt =====
-- What holds of the scheduler at all times: which tasks stand in the array, that one of them runs, and
-- that the page table in use is that task's. It is what start_kernel sets up and every trap keeps.
use simple_rv64os.Base.{
  ℕ, suc, ◌-◌, ◌<◌, ◌≤◌, ◌≡◌, ◌≢◌, refl, sym, subst, ◌∙◌, ap, inl, inr, Option, none, some, arith,
  ltb, ◌==◌, Bool-cases,
}
use mathlib.Core.Path.{subst₂}
use simple_rv64os.Base.Arrays.{put, put-same, put-other}
use simple_rv64os.Task.{Task}
use simple_rv64os.Sched.{
  nr_tasks, Slots, Sched, get_satp, recharged, recharge, switch_to, schedule, do_timer,
}
use simple_rv64os.Sched.Ready.{IsReady, recharge-slot, recharge-cases, put-cases}
use simple_rv64os.Sched.Pick.{IsChosen, schedule_lem}
use simple_rv64os.Sched.Timer.{ticked, do_timer-runs, do_timer-idle, do_timer-out, do_timer-last}

-- A task that may stand in slot i.
pub record IsTaskOf (i : ℕ) (t : Task) : Type 0 where
  pub pid : t.pid ≡ i
  pub counter_max : t.counter ≤ 20
  pub priority_max : t.priority ≤ 10
  pub priority_min : 1 ≤ i → 1 ≤ t.priority

-- Every task has its slot as its pid, its numbers are in their ranges, and slot 1 is never free.
pub record IsArray (slots : Slots) : Type 0 where
  pub each : (i : ℕ) (t : Task) → slots i ≡ some t → IsTaskOf i t
  pub first : (t : Task) × (slots 1 ≡ some t)

-- A task array with a task that runs, in its own page table.
pub record IsSound (s : Sched) : Type 0 where
  pub slots : IsArray s.task
  pub below : s.current < nr_tasks
  pub runs : (t : Task) × (s.task s.current ≡ some t) × (s.satp ≡ get_satp t.page_table)

pub IsArray-IsReady : (slots : Slots) → IsArray slots → IsReady slots
IsArray-IsReady slots a = record {
  counter_max = λ i t at. (a.each i t at).counter_max;
  priority_max = λ i t at. (a.each i t at).priority_max;
  priority_min = λ i t lo at. (a.each i t at).priority_min lo;
}

pub put-IsArray :
    (slots : Slots) (i : ℕ) (t : Task)
    → IsArray slots
    → IsTaskOf i t
    → IsArray (put slots i (some t))
put-IsArray slots i t a v = record {
  each = λ j u at. elim (put-cases slots i t j u at) [
    | inl (same, here) ↦ subst₂ (λ x y. IsTaskOf x y) here same v
    | inr old ↦ a.each j u old
  ];
  first = elim (Bool-cases (i == 1)) [
    | inl here ↦
        let same : i ≡ 1 = ground arith in
        (t, ap (put slots i (some t)) (sym same) ∙ put-same slots i (some t))
    | inr away ↦ (a.first.0, put-other slots i (some t) 1 (ground arith) ∙ a.first.1)
  ];
}

pub recharge-IsArray : (slots : Slots) → IsArray slots → IsArray (recharge 15 slots)
recharge-IsArray slots a = record {
  each = λ i t at. elim (recharge-cases slots i t at) [
    | inl old ↦ a.each i t old
    | inr (u, was, e) ↦ subst (IsTaskOf i) (sym e) (charged i u (a.each i u was))
  ];
  first = (_, recharge-slot slots 1 a.first.0 (omega arith) (omega arith) a.first.1);
}
  where
    charged : (i : ℕ) (u : Task) → IsTaskOf i u → IsTaskOf i (recharged u)
    charged i u v = record {
      pid = v.pid;
      counter_max = omega (arith, v.counter_max, v.priority_max);
      priority_max = v.priority_max;
      priority_min = v.priority_min;
    }

IsChosen-IsArray :
    (slots pool : Slots) (next : ℕ) → IsChosen slots pool next → IsArray slots → IsArray pool
IsChosen-IsArray slots pool next c a = elim c.origin [
  | inl same ↦ subst IsArray (sym same) a
  | inr (out, same) ↦ subst IsArray (sym same) (recharge-IsArray slots a)
]

-- Where switch_to returns, the slot it was given is current, with its task's table in use.
pub switch_to_lem :
    (s s' : Sched) (next : ℕ)
    → switch_to s next ≡ some s'
    → (t : Task) × (s.task next ≡ some t)
      × (s' ≡ record s { current = next; satp = get_satp t.page_table })
unfolding switch_to
switch_to_lem s s' next e = go (s.task next) refl e
  where
    go :
        (o : Option Task)
        → s.task next ≡ o
        → (elim o [
          | none ↦ none
          | some t ↦ some (record s { current = next; satp = get_satp t.page_table })
        ])
          ≡ some s'
        → (t : Task) × (s.task next ≡ some t)
          × (s' ≡ record s { current = next; satp = get_satp t.page_table })
    go none at e = absurd (cc e)
    go (some t) at e = (t, at, cc (sym e))

pub switch_to-IsSound :
    (s s' : Sched) (next : ℕ)
    → IsArray s.task
    → next < nr_tasks
    → switch_to s next ≡ some s'
    → IsSound s'
switch_to-IsSound s s' next a hi e =
    let (t, at, same) = switch_to_lem s s' next e in
    subst IsSound (sym same) record { slots = a; below = hi; runs = (t, at, refl) }

-- schedule returns from every array of this kind, whatever runs before.
pub schedule-IsSound :
    (f : ℕ) (s : Sched)
    → IsArray s.task
    → (s' : Sched) × (schedule (suc (suc f)) s ≡ some s') × IsSound s'
schedule-IsSound f s a =
    let (s', e, c, runs) =
      schedule_lem f 1 a.first.0 s (IsArray-IsReady s.task a) (omega arith) (omega arith)
        a.first.1 in
    (
      s',
      e,
      record {
        slots = IsChosen-IsArray s.task s'.task s'.current c a;
        below = c.picked.high;
        runs = runs;
      },
    )

pub ticked-IsArray :
    (s : Sched) (t : Task) → s.task s.current ≡ some t → IsArray s.task → IsArray (ticked s t)
unfolding ticked
ticked-IsArray s t at a =
    let v = a.each s.current t at in
    put-IsArray s.task s.current (record t { counter = t.counter - 1 }) a
      record {
        pid = v.pid;
        counter_max = omega (arith, v.counter_max);
        priority_max = v.priority_max;
        priority_min = v.priority_min;
      }

-- From a sound state a tick returns, within two rounds of schedule, to a sound state.
pub do_timer-IsSound :
    (f : ℕ) (s : Sched)
    → IsSound s
    → (s' : Sched) × (do_timer (suc (suc f)) s ≡ some s') × IsSound s'
unfolding ticked
do_timer-IsSound f s sound =
    let (u, at, satp) = sound.runs in
    let v = sound.slots.each s.current u at in
    elim (Bool-cases (s.current == 0)) [
      | inl idle ↦
          let still : s.current ≡ 0 = ground arith in
          gives_way s sound.slots (do_timer-idle (suc (suc f)) s still)
      | inr busy ↦
          let away : s.current ≢ 0 = ground arith in
          elim (Bool-cases (ltb 1 u.counter)) [
            | inl more ↦ (
              record s { task = ticked s u },
              do_timer-runs (suc (suc f)) s u away at (ground arith) (omega (arith, v.counter_max)),
              record {
                slots = ticked-IsArray s u at sound.slots;
                below = sound.below;
                runs = (record u { counter = u.counter - 1 }, put-same s.task s.current _, satp);
              },
            )
            | inr few ↦ elim (Bool-cases (u.counter == 0)) [
              | inl out ↦
                  let nothing : u.counter ≡ 0 = ground arith in
                  gives_way s sound.slots (do_timer-out (suc (suc f)) s u away at nothing)
              | inr last ↦
                  let one : u.counter ≡ 1 = ground arith in
                  gives_way (record s { task = ticked s u }) (ticked-IsArray s u at sound.slots)
                    (do_timer-last (suc (suc f)) s u away at one)
            ]
          ]
    ]
  where
    gives_way :
        (x : Sched)
        → IsArray x.task
        → do_timer (suc (suc f)) s ≡ schedule (suc (suc f)) x
        → (s' : Sched) × (do_timer (suc (suc f)) s ≡ some s') × IsSound s'
    gives_way x a run = let (s', e, sound) = schedule-IsSound f x a in (s', run ∙ e, sound)
