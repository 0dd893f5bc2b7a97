-- ===== src/Sched/Slots.antt =====
-- add_task: the lowest free slot.
use simple_rv64os.Base.{
  ℕ, zero, suc, ◌+◌, ◌-◌, ◌<◌, ◌≤◌, ◌≡◌, ◌≢◌, refl, sym, subst, ◌∙◌, ap, ◌⊎◌, inl, inr, Option,
  none, some, arith, ◌==◌, Bool-cases,
}
use simple_rv64os.Base.Arrays.{put}
use simple_rv64os.Task.{Task}
use simple_rv64os.Sched.{nr_tasks, Slots, free_slot, add_task}

pub Option-cases {ℓ} : {A : Type ℓ} → (o : Option A) → (o ≡ none) ⊎ ((a : A) × (o ≡ some a))
Option-cases none = inl refl
Option-cases (some a) = inr (a, refl)

-- r is the first slot from i that is free, or i + left where none is.
record IsFirstFree (left i : ℕ) (slots : Slots) (r : ℕ) : Type 0 where
  above : i ≤ r
  below : r ≤ i + left
  used : (j : ℕ) → i ≤ j → j < r → slots j ≢ none
  free : r < i + left → slots r ≡ none

free_slot-IsFirstFree :
    (left i : ℕ) (slots : Slots) → IsFirstFree left i slots (free_slot left i slots)
unfolding free_slot
free_slot-IsFirstFree zero i slots = record {
  above = omega arith;
  below = omega arith;
  used = λ j le lt. absurd (omega arith);
  free = λ lt. absurd (omega arith);
}
free_slot-IsFirstFree (suc left) i slots = elim (Option-cases (slots i)) [
  | inl empty ↦
      let here : free_slot (suc left) i slots ≡ i = rw (empty, free_slot) refl in
      subst (IsFirstFree (suc left) i slots) (sym here) (record {
        above = omega arith;
        below = omega arith;
        used = λ j le lt. absurd (omega arith);
        free = λ lt. empty;
      })
  | inr (t, taken) ↦
      let next : free_slot (suc left) i slots ≡ free_slot left (i + 1) slots =
        rw (taken, free_slot) refl in
      let f = free_slot-IsFirstFree left (i + 1) slots in
      subst (IsFirstFree (suc left) i slots) (sym next) (record {
        above = omega (arith, f.above);
        below = omega (arith, f.below);
        used = λ j le lt. step t taken j le (λ le'. f.used j le' lt);
        free = λ lt. f.free (omega arith);
      })
]
  where
    step :
        (t : Task)
        → slots i ≡ some t
        → (j : ℕ) → i ≤ j
        → (i + 1 ≤ j → slots j ≢ none)
        → slots j ≢ none
    step t taken j le later = elim (Bool-cases (i == j)) [
      | inl e ↦ let same : i ≡ j = ground arith in λ n. cc (sym taken ∙ ap slots same ∙ n)
      | inr ne ↦ later (ground arith)
    ]

-- add_task puts the task into the lowest free slot from 2 to 15 and returns that slot, or, where none
-- of them is free, returns -1 and leaves the array as it is.
pub add_task_lem :
    (slots : Slots) (new : Task)
    → ((i : ℕ) × (add_task slots new ≡ (some i, put slots i (some new)))
        × (2 ≤ i)
        × (i < nr_tasks)
        × (slots i ≡ none)
        × ((j : ℕ) → 2 ≤ j → j < i → slots j ≢ none))
      ⊎ ((add_task slots new ≡ (none, slots)) × ((j : ℕ) → 2 ≤ j → j < nr_tasks → slots j ≢ none))
unfolding add_task
add_task_lem slots new =
    let f = free_slot-IsFirstFree (nr_tasks - 2) 2 slots in
    let i = free_slot (nr_tasks - 2) 2 slots in
    elim (Bool-cases (i == nr_tasks)) [
      | inl full ↦ inr (rw full refl, λ j le lt. f.used j le (ground arith))
      | inr room ↦
          let below : i < nr_tasks = ground (arith, f.below) in
          inl (i, rw (room, f.free below) refl, f.above, below, f.free below, f.used)
    ]
