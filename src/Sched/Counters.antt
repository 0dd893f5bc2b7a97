-- ===== src/Sched/Counters.antt =====
-- The counters after a tick and after a recharge.
use simple_rv64os.Base.{ℕ, ◌+◌, ◌-◌, ◌/◌, ◌<◌, ◌≤◌, ◌≡◌, ◌≢◌, sym, ◌∙◌, ap, inl, inr, some, arith}
use simple_rv64os.Base.Arrays.{put-same, put-other}
use simple_rv64os.Base.Word.{add64}
use simple_rv64os.Task.{Task}
use simple_rv64os.Sched.{nr_tasks, Slots, Sched, recharged, recharge}
use simple_rv64os.Sched.Pick.{AllOut, IsChosen}
use simple_rv64os.Sched.Ready.{recharge-slot, recharge-cases}
use simple_rv64os.Sched.Scan.{counter_at, counter_at-some, counter_at-none}
use simple_rv64os.Sched.Slots.{Option-cases}
use simple_rv64os.Sched.Sound.{IsArray}
use simple_rv64os.Sched.Timer.{ticked}
use simple_rv64os.Sched.Total.{total, total-lowered}

pub counter_at-ticked : (s : Sched) (u : Task) → counter_at (ticked s u) s.current ≡ u.counter - 1
unfolding ticked
counter_at-ticked s u = counter_at-some (ticked s u) s.current _ (put-same s.task s.current _)

counter_at-same : (a b : Slots) (j : ℕ) → a j ≡ b j → counter_at a j ≡ counter_at b j
counter_at-same a b j e = elim (Option-cases (b j)) [
  | inl empty ↦ counter_at-none a j (e ∙ empty) ∙ sym (counter_at-none b j empty)
  | inr (t, at) ↦ counter_at-some a j t (e ∙ at) ∙ sym (counter_at-some b j t at)
]

pub ticked-others :
    (s : Sched) (u : Task) (j : ℕ) → j ≢ s.current → counter_at (ticked s u) j ≡ counter_at s.task j
unfolding ticked
ticked-others s u j ne =
    counter_at-same (ticked s u) s.task j (put-other s.task s.current _ j (λ e. ne (sym e)))

pub total-ticked :
    (s : Sched) (u : Task)
    → 1 ≤ s.current
    → s.current < nr_tasks
    → s.task s.current ≡ some u
    → 1 ≤ u.counter
    → total 15 s.task ≡ total 15 (ticked s u) + 1
total-ticked s u lo hi at one =
    total-lowered 15 s.current s.task (ticked s u) lo (omega arith)
      (omega (arith, counter_at-some s.task s.current u at, counter_at-ticked s u))
      (λ j ne. sym (ticked-others s u j ne))

pub recharged-least :
    (x : Slots)
    → IsArray x
    → (j : ℕ) (t : Task) → 1 ≤ j
    → recharge 15 x j ≡ some t
    → j < nr_tasks
    → 1 ≤ counter_at (recharge 15 x) j
recharged-least x a j t lo at hi = elim (Option-cases (x j)) [
  | inl empty ↦ elim (recharge-cases x j t at) [
    | inl old ↦ absurd (cc (sym empty ∙ old))
    | inr (u, was, e) ↦ absurd (cc (sym empty ∙ was))
  ]
  | inr (u, was) ↦
      let v = a.each j u was in
      let now = recharge-slot x j u lo hi was in
      omega (
        arith,
        counter_at-some (recharge 15 x) j (recharged u) now,
        v.priority_min lo,
        v.priority_max,
        v.counter_max,
      )
]

pub recharged-most :
    (x : Slots)
    → IsArray x
    → AllOut x
    → (j : ℕ) → 1 ≤ j
    → j < nr_tasks
    → counter_at (recharge 15 x) j ≤ 10
unfolding AllOut
recharged-most x a out j lo hi = elim (Option-cases (recharge 15 x j)) [
  | inl empty ↦ omega (arith, counter_at-none (recharge 15 x) j empty)
  | inr (t, at) ↦ elim (recharge-cases x j t at) [
    | inl old ↦
        omega
          (arith, counter_at-some (recharge 15 x) j t at, counter_at-some x j t old, out j lo hi)
    | inr (u, was, e) ↦
        let v = a.each j u was in
        let top : t.counter ≡ add64 u.priority (u.counter / 2) = ap (λ y. y.counter) e in
        omega (
          arith,
          counter_at-some (recharge 15 x) j t at,
          counter_at-some x j u was,
          out j lo hi,
          v.priority_max,
        )
  ]
]

pub stays-chosen :
    (x : Slots) (s' : Sched) (i : ℕ) (t : Task)
    → IsChosen x s'.task s'.current
    → 1 ≤ i
    → i < nr_tasks
    → x i ≡ some t
    → (t' : Task) × (s'.task i ≡ some t')
stays-chosen x s' i t c lo hi at = elim c.origin [
  | inl kept ↦ (t, ap (λ y. y i) kept ∙ at)
  | inr (out, charged) ↦ (recharged t, ap (λ y. y i) charged ∙ recharge-slot x i t lo hi at)
]
