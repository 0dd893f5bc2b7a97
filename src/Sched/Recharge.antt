-- ===== src/Sched/Recharge.antt =====
-- The round that gives every task its priority and half of what was left.
use simple_rv64os.Base.{
  ℕ, zero, suc, ◌≡◌, ◌≢◌, refl, ◌∙◌, subst, inl, inr, Option, none, some, arith, leb, ◌==◌,
  if◌then◌else◌, Bool-cases, ◌&&◌,
}
use simple_rv64os.Base.Arrays.{put-same, put-other}
use simple_rv64os.Task.{Task}
use simple_rv64os.Sched.{Slots, recharged, recharge_slot, recharge}
use simple_rv64os.Sched.Slots.{Option-cases}

unfoldable pub map_task : (Task → Task) → Option Task → Option Task
map_task f none = none
map_task f (some t) = some (f t)

recharge_slot-same :
    (slots : Slots) (i : ℕ) → recharge_slot slots i i ≡ map_task recharged (slots i)
unfolding recharge_slot map_task
recharge_slot-same slots i = elim (Option-cases (slots i)) [
  | inl empty ↦ rw (empty, recharge_slot, map_task) empty
  | inr (t, taken) ↦ rw (taken, recharge_slot, map_task) (put-same slots i (some (recharged t)))
]

recharge_slot-other : (slots : Slots) (i j : ℕ) → i ≢ j → recharge_slot slots i j ≡ slots j
unfolding recharge_slot
recharge_slot-other slots i j ne = elim (Option-cases (slots i)) [
  | inl empty ↦ rw (empty, recharge_slot) refl
  | inr (t, taken) ↦ rw (taken, recharge_slot) (put-other slots i (some (recharged t)) j ne)
]

-- Slots 1 to n are recharged and the others left alone.
pub recharge_lem :
    (n : ℕ) (slots : Slots) (j : ℕ)
    → recharge n slots j ≡ (if leb 1 j && leb j n then map_task recharged (slots j) else slots j)
unfolding recharge
recharge_lem zero slots j = ground arith
recharge_lem (suc n) slots j =
    recharge_lem n (recharge_slot slots (suc n)) j ∙ elim (Bool-cases (j == suc n)) [
      | inl e ↦
          let same : suc n ≡ j = ground arith in
          subst
            (λ x.
              (if leb 1 x && leb x n
                then map_task recharged (recharge_slot slots (suc n) x)
                else recharge_slot slots (suc n) x)
              ≡ (if leb 1 x && leb x (suc n) then map_task recharged (slots x) else slots x))
            same (top n _ _ _ _ (recharge_slot-same slots (suc n)))
      | inr ne ↦
          rw (recharge_slot-other slots (suc n) j (ground arith))
            (range n j (map_task recharged (slots j)) (slots j) (ground arith))
    ]
  where
    top :
        (n : ℕ) (a b c d : Option Task)
        → b ≡ c
        → (if leb 1 (suc n) && leb (suc n) n then a else b)
          ≡ (if leb 1 (suc n) && leb (suc n) (suc n) then c else d)
    top n a b c e = ground arith

    range :
        (n j : ℕ) (a b : Option Task)
        → j ≢ suc n
        → (if leb 1 j && leb j n then a else b) ≡ (if leb 1 j && leb j (suc n) then a else b)
    range n j a b ne = ground arith
