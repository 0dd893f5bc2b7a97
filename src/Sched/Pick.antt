-- ===== src/Sched/Pick.antt =====
-- schedule: which task runs next, and that the search ends.
use simple_rv64os.Base.{
  ℕ, zero, suc, ◌^◌, ◌<◌, ◌≤◌, ◌≡◌, refl, ◌∙◌, ap, ◌⊎◌, inl, inr, true, false, none, some, arith,
  ltb, Bool-cases, ltb→lt, le→leb, lt→ltb,
}
use simple_rv64os.Task.{Task}
use simple_rv64os.Sched.{
  nr_tasks, Slots, Sched, positive, scan, recharged, recharge, choose, switch_to, switch_chosen,
  schedule_priority, schedule, get_satp,
}
use simple_rv64os.Sched.Slots.{Option-cases}
use simple_rv64os.Sched.Scan.{counter_at, counter_at-some, counter_at-none, scan-IsBest}
use simple_rv64os.Sched.Ready.{IsReady, IsReady-Small, recharge-slot, recharge-IsReady}
use simple_rv64os.Sched.Recharge.{map_task, recharge_lem}

-- Of the tasks in slots 1 to 15, the one in slot `next` has the largest counter, which is not 0, and
-- stands in the highest slot of those.
pub record IsPicked (slots : Slots) (next : ℕ) : Type 0 where
  pub low : 1 ≤ next
  pub high : next < nr_tasks
  pub runs : 0 < counter_at slots next
  pub largest : (j : ℕ) → 1 ≤ j → j < nr_tasks → counter_at slots j ≤ counter_at slots next
  pub highest : (j : ℕ) → next < j → j < nr_tasks → counter_at slots j < counter_at slots next

-- Every slot from 1 to 15 is empty or holds a task without time left.
unfoldable pub AllOut : Slots → Type 0
AllOut slots = (j : ℕ) → 1 ≤ j → j < nr_tasks → counter_at slots j ≡ 0

choose-step :
    (f : ℕ) (slots : Slots)
    → IsReady slots
    → ((next : ℕ) × (choose (suc f) slots ≡ some (slots, next)) × IsPicked slots next)
      ⊎ (AllOut slots × (choose (suc f) slots ≡ choose f (recharge 15 slots)))
unfolding choose AllOut
choose-step f slots r =
    let g = scan-IsBest slots 15 0 0 (IsReady-Small slots r) (omega arith) in
    let best = scan 15 slots (0, 0) in
    elim (Bool-cases (ltb 0 best.0)) [
      | inl more ↦
          let up : 0 < best.0 = ltb→lt 0 best.0 more in
          let on : positive best.0 ≡ true =
            rw (lt→ltb 0 best.0 up) (lt→ltb best.0 (2 ^ 31) g.fits) in
          elim g.value [
            | inl e ↦ let none_found : best.0 ≡ 0 = ap (λ x. x.0) e in absurd (omega arith)
            | inr (gt, lo, hi, at) ↦ inl (
              best.1,
              rw on refl,
              record {
                low = lo;
                high = omega arith;
                runs = omega arith;
                largest = λ j lo' hi'. omega (arith, g.largest j lo' (omega arith));
                highest = λ j lo' hi'. omega (arith, g.ties j up lo' (omega arith));
              },
            )
          ]
      | inr less ↦
          let zero_left : best.0 ≡ 0 = ground arith in
          let off : positive best.0 ≡ false = rw zero_left refl in
          inr (λ j lo hi. omega (arith, g.largest j lo (omega arith)), rw off refl)
    ]

-- The task that runs next, the task array it is chosen from, and the array before.
pub record IsChosen (slots pool : Slots) (next : ℕ) : Type 0 where
  pub origin : (pool ≡ slots) ⊎ (AllOut slots × (pool ≡ recharge 15 slots))
  pub picked : IsPicked pool next
  pub ready : IsReady pool

pub choose-IsChosen :
    (f i : ℕ) (t : Task) (slots : Slots)
    → IsReady slots
    → 1 ≤ i
    → i < nr_tasks
    → slots i ≡ some t
    → (pool : Slots) × (next : ℕ) × (choose (suc (suc f)) slots ≡ some (pool, next))
      × IsChosen slots pool next
choose-IsChosen f i t slots r lo hi at = elim (choose-step (suc f) slots r) [
  | inl (next, runs, p) ↦ (slots, next, runs, record { origin = inl refl; picked = p; ready = r })
  | inr (out, again) ↦
      let pool = recharge 15 slots in
      let ready = recharge-IsReady slots r in
      let charged = recharge-slot slots i t lo hi at in
      let value = counter_at-some pool i (recharged t) charged in
      let some_left : 0 < counter_at pool i =
        omega (arith, r.priority_min i t lo at, r.priority_max i t at, r.counter_max i t at) in
      elim (choose-step f pool ready) [
        | inl (next, runs, p) ↦ (
          pool,
          next,
          again ∙ runs,
          record { origin = inr (out, refl); picked = p; ready = ready },
        )
        | inr (out', again') ↦ absurd (out_at pool i out' lo hi some_left)
      ]
]
  where
    out_at : (pool : Slots) (i : ℕ) → AllOut pool → 1 ≤ i → i < nr_tasks → 0 < counter_at pool i → ⊥
    out_at pool i out lo hi left = unfold AllOut in omega (arith, out i lo hi)

schedule_run :
    (fuel next : ℕ) (s : Sched) (pool : Slots) (u : Task)
    → choose fuel s.task ≡ some (pool, next)
    → pool next ≡ some u
    → schedule fuel s ≡ some (record { task = pool; current = next; satp = get_satp u.page_table })
unfolding schedule schedule_priority switch_chosen switch_to
schedule_run fuel next s pool u runs there = ap (switch_chosen s) runs ∙ rw there refl

-- With tasks in their ranges and one at least in slots 1 to 15, schedule needs no more than two
-- rounds: it makes current the task with the largest counter, the highest slot of those, in the task
-- array as it is or, where no task has time left, recharged; it leaves the array in its ranges and
-- gives __switch_to that task's page table.
pub schedule_lem :
    (f i : ℕ) (t : Task) (s : Sched)
    → IsReady s.task
    → 1 ≤ i
    → i < nr_tasks
    → s.task i ≡ some t
    → (s' : Sched) × (schedule (suc (suc f)) s ≡ some s')
      × IsChosen s.task s'.task s'.current
      × ((u : Task) × (s'.task s'.current ≡ some u) × (s'.satp ≡ get_satp u.page_table))
schedule_lem f i t s r lo hi at =
    let (pool, next, runs, c) = choose-IsChosen f i t s.task r lo hi at in
    elim (Option-cases (pool next)) [
      | inl empty ↦ absurd (omega (arith, c.picked.runs, counter_at-none pool next empty))
      | inr (u, there) ↦ (
        record { task = pool; current = next; satp = get_satp u.page_table },
        schedule_run (suc (suc f)) next s pool u runs there,
        c,
        (u, there, refl),
      )
    ]

-- With no task in slots 1 to 15 and tasks in their ranges, schedule never returns, whatever the
-- number of rounds.
pub schedule-endless :
    (f : ℕ) (s : Sched)
    → ((j : ℕ) → 1 ≤ j → j < nr_tasks → s.task j ≡ none)
    → IsReady s.task
    → schedule f s ≡ none
unfolding schedule schedule_priority switch_chosen map_task
schedule-endless f s empty r = ap (switch_chosen s) (endless f s.task empty r)
  where
    endless :
        (f : ℕ) (slots : Slots)
        → ((j : ℕ) → 1 ≤ j → j < nr_tasks → slots j ≡ none)
        → IsReady slots
        → choose f slots ≡ none
    endless zero slots empty r = unfold choose in refl
    endless (suc f) slots empty r = elim (choose-step f slots r) [
      | inl (next, runs, p) ↦
          absurd (omega (arith, p.runs, counter_at-none slots next (empty next p.low p.high)))
      | inr (out, again) ↦
          again
          ∙ endless f (recharge 15 slots)
              (λ j lo hi.
                recharge_lem 15 slots j
                ∙ rw (le→leb 1 j lo, le→leb j 15 (omega arith))
                    (ap (map_task recharged) (empty j lo hi)))
              (recharge-IsReady slots r)
    ]
