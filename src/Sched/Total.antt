-- ===== src/Sched/Total.antt =====
-- The sum of the counters of slots 1 to n.
use simple_rv64os.Base.{
  ℕ, zero, suc, ◌+◌, ◌*◌, ◌≤◌, ◌≡◌, ◌≢◌, refl, sym, subst, ap, inl, inr, arith, ◌==◌, Bool-cases,
}
use native.Mathlib.Nat.{suc-mul}
use simple_rv64os.Sched.{Slots}
use simple_rv64os.Sched.Scan.{counter_at}

unfoldable pub total : ℕ → Slots → ℕ
total zero slots = 0
total (suc n) slots = counter_at slots (suc n) + total n slots

pub total-same :
    (n : ℕ) (a b : Slots)
    → ((j : ℕ) → 1 ≤ j → j ≤ n → counter_at a j ≡ counter_at b j)
    → total n a ≡ total n b
unfolding total
total-same zero a b same = refl
total-same (suc n) a b same = omega (
  arith,
  same (suc n) (omega arith) (omega arith),
  total-same n a b (λ j lo hi. same j lo (omega arith)),
)

-- One counter is lower by one, and the others are the same.
pub total-lowered :
    (n c : ℕ) (a b : Slots)
    → 1 ≤ c
    → c ≤ n
    → counter_at a c ≡ counter_at b c + 1
    → ((j : ℕ) → j ≢ c → counter_at a j ≡ counter_at b j)
    → total n a ≡ total n b + 1
unfolding total
total-lowered zero c a b lo hi one same = absurd (omega arith)
total-lowered (suc n) c a b lo hi one same = elim (Bool-cases (c == suc n)) [
  | inl e ↦
      let here : c ≡ suc n = ground arith in
      let last : counter_at a (suc n) ≡ counter_at b (suc n) + 1 =
        subst (λ x. counter_at a x ≡ counter_at b x + 1) here one in
      omega (arith, last, total-same n a b (λ j lo' hi'. same j (λ at. omega arith)))
  | inr ne ↦
      let away : c ≢ suc n = ground arith in
      omega
        (arith, same (suc n) (λ at. away (sym at)), total-lowered n c a b lo (omega arith) one same)
]

pub counter_at-total :
    (n j : ℕ) (slots : Slots) → 1 ≤ j → j ≤ n → counter_at slots j ≤ total n slots
unfolding total
counter_at-total zero j slots lo hi = absurd (omega arith)
counter_at-total (suc n) j slots lo hi = elim (Bool-cases (j == suc n)) [
  | inl e ↦ let here : j ≡ suc n = ground arith in omega (arith, ap (counter_at slots) here)
  | inr ne ↦
      let away : j ≢ suc n = ground arith in
      omega (arith, counter_at-total n j slots lo (omega arith))
]

pub total-bound :
    (n most : ℕ) (slots : Slots)
    → ((j : ℕ) → 1 ≤ j → j ≤ n → counter_at slots j ≤ most)
    → total n slots ≤ n * most
unfolding total
total-bound zero most slots each = omega arith
total-bound (suc n) most slots each = omega (
  arith,
  each (suc n) (omega arith) (omega arith),
  total-bound n most slots (λ j lo hi. each j lo (omega arith)),
  suc-mul n most,
)
