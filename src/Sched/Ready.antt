-- ===== src/Sched/Ready.antt =====
-- The ranges of priorities and counters, and what keeps them.
use simple_rv64os.Base.{
  ℕ, ◌/◌, ◌<◌, ◌≤◌, ◌≡◌, refl, sym, ◌∙◌, ap, ◌⊎◌, inl, inr, Bool, true, false, Option, none, some,
  arith, leb, ◌==◌, if◌then◌else◌, Bool-cases, ◌&&◌, le→leb,
}
use simple_rv64os.Base.Arrays.{put, put-same, put-other}
use simple_rv64os.Base.Word.{add64}
use simple_rv64os.Task.{Task}
use simple_rv64os.Sched.{nr_tasks, Slots, recharged, recharge}
use simple_rv64os.Sched.Slots.{Option-cases}
use simple_rv64os.Sched.Scan.{counter_at-some, counter_at-none, Small}
use simple_rv64os.Sched.Recharge.{map_task, recharge_lem}

-- The ranges of a task array: priorities are 1 to 10 but for idle's, and no counter is over 20.
pub record IsReady (slots : Slots) : Type 0 where
  pub counter_max : (i : ℕ) (t : Task) → slots i ≡ some t → t.counter ≤ 20
  pub priority_max : (i : ℕ) (t : Task) → slots i ≡ some t → t.priority ≤ 10
  pub priority_min : (i : ℕ) (t : Task) → 1 ≤ i → slots i ≡ some t → 1 ≤ t.priority

pub IsReady-Small : (slots : Slots) → IsReady slots → Small slots
unfolding Small
IsReady-Small slots r i = elim (Option-cases (slots i)) [
  | inl empty ↦ omega (arith, counter_at-none slots i empty)
  | inr (t, at) ↦ omega (arith, counter_at-some slots i t at, r.counter_max i t at)
]

map_task-some :
    (o : Option Task) (t : Task)
    → map_task recharged o ≡ some t
    → (u : Task) × (o ≡ some u) × (t ≡ recharged u)
unfolding map_task
map_task-some none t e = absurd (cc e)
map_task-some (some u) t e = (u, refl, cc e)

pub recharge-slot :
    (slots : Slots) (j : ℕ) (t : Task)
    → 1 ≤ j
    → j < nr_tasks
    → slots j ≡ some t
    → recharge 15 slots j ≡ some (recharged t)
unfolding map_task
recharge-slot slots j t lo hi at =
    recharge_lem 15 slots j ∙ rw (le→leb 1 j lo, le→leb j 15 (omega arith), at) refl

-- What stands in a recharged array: what stood there, or a task recharged.
pub recharge-cases :
    (slots : Slots) (i : ℕ) (t : Task)
    → recharge 15 slots i ≡ some t
    → (slots i ≡ some t) ⊎ ((u : Task) × (slots i ≡ some u) × (t ≡ recharged u))
recharge-cases slots i t at =
    let side : (c : Bool)
        → (leb 1 i && leb i 15) ≡ c
        → recharge 15 slots i ≡ (if c then map_task recharged (slots i) else slots i) =
      λ c e.
        recharge_lem 15 slots i ∙ ap (λ x. if x then map_task recharged (slots i) else slots i) e in
    elim (Bool-cases (leb 1 i && leb i 15)) [
      | inl inside ↦ inr (map_task-some (slots i) t (sym (side true inside) ∙ at))
      | inr outside ↦ inl (sym (side false outside) ∙ at)
    ]

-- Recharging keeps the ranges.
pub recharge-IsReady : (slots : Slots) → IsReady slots → IsReady (recharge 15 slots)
recharge-IsReady slots r = record {
  counter_max = λ i t at. elim (recharge-cases slots i t at) [
    | inl old ↦ r.counter_max i t old
    | inr (u, was, e) ↦
        let top : t.counter ≡ add64 u.priority (u.counter / 2) = ap (λ x. x.counter) e in
        omega (arith, r.counter_max i u was, r.priority_max i u was)
  ];
  priority_max = λ i t at. elim (recharge-cases slots i t at) [
    | inl old ↦ r.priority_max i t old
    | inr (u, was, e) ↦
        let same : t.priority ≡ u.priority = ap (λ x. x.priority) e in
        omega (arith, r.priority_max i u was)
  ];
  priority_min = λ i t lo at. elim (recharge-cases slots i t at) [
    | inl old ↦ r.priority_min i t lo old
    | inr (u, was, e) ↦
        let same : t.priority ≡ u.priority = ap (λ x. x.priority) e in
        omega (arith, r.priority_min i u lo was)
  ];
}

-- What stands in an array with a task put into it: that task, or what stood there.
pub put-cases :
    (slots : Slots) (i : ℕ) (t : Task) (j : ℕ) (u : Task)
    → put slots i (some t) j ≡ some u
    → ((t ≡ u) × (i ≡ j)) ⊎ (slots j ≡ some u)
put-cases slots i t j u at = elim (Bool-cases (i == j)) [
  | inl e ↦
      let same : i ≡ j = ground arith in
      let here : put slots i (some t) i ≡ some t = put-same slots i (some t) in
      inl (cc (sym here ∙ ap (put slots i (some t)) same ∙ at), same)
  | inr ne ↦ inr (sym (put-other slots i (some t) j (ground arith)) ∙ at)
]

-- A task in its ranges may be put into any slot.
pub put-IsReady :
    (slots : Slots) (i : ℕ) (t : Task)
    → IsReady slots
    → t.counter ≤ 20
    → t.priority ≤ 10
    → (1 ≤ i → 1 ≤ t.priority)
    → IsReady (put slots i (some t))
put-IsReady slots i t r few top least = record {
  counter_max = λ j u at. elim (put-cases slots i t j u at) [
    | inl (e, at') ↦ omega (arith, ap (λ x. x.counter) e)
    | inr at' ↦ r.counter_max j u at'
  ];
  priority_max = λ j u at. elim (put-cases slots i t j u at) [
    | inl (e, at') ↦ omega (arith, ap (λ x. x.priority) e)
    | inr at' ↦ r.priority_max j u at'
  ];
  priority_min = λ j u lo at. elim (put-cases slots i t j u at) [
    | inl (e, at') ↦ omega (arith, ap (λ x. x.priority) e, least (omega arith))
    | inr at' ↦ r.priority_min j u lo at'
  ];
}
