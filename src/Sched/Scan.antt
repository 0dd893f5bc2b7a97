-- ===== src/Sched/Scan.antt =====
-- The search for the largest counter.
use simple_rv64os.Base.{
  ℕ, zero, suc, ◌%◌, ◌^◌, ◌<◌, ◌≤◌, ◌≡◌, refl, sym, ◌∙◌, ap, subst, ◌⊎◌, inl, inr, none, some,
  arith, ltb, ◌==◌, if◌then◌else◌, Bool-cases, ltb→lt, ge→ltb,
}
use simple_rv64os.Task.{Task}
use simple_rv64os.Sched.{Slots, consider, scan, widen}
use simple_rv64os.Sched.Slots.{Option-cases}

-- The counter in a slot, 0 for NULL.
pub counter_at : Slots → ℕ → ℕ
counter_at slots i = elim (slots i) [ none ↦ 0 | some t ↦ t.counter ]

pub counter_at-some :
    (slots : Slots) (i : ℕ) (t : Task) → slots i ≡ some t → counter_at slots i ≡ t.counter
unfolding counter_at
counter_at-some slots i t at = rw (at, counter_at) refl

pub counter_at-none : (slots : Slots) (i : ℕ) → slots i ≡ none → counter_at slots i ≡ 0
unfolding counter_at
counter_at-none slots i at = rw (at, counter_at) refl

-- Counters that an `int` holds.
unfoldable pub Small : Slots → Type 0
Small slots = (i : ℕ) → counter_at slots i < 2 ^ 31

consider-counter :
    (slots : Slots) (i c next : ℕ)
    → Small slots
    → c < 2 ^ 31
    → consider slots i (c, next)
      ≡ (if ltb c (counter_at slots i) then (counter_at slots i, i) else (c, next))
unfolding consider Small
consider-counter slots i c next small fits =
    let at = small i in
    let same : widen c ≡ c = ground arith in
    elim (Option-cases (slots i)) [
      | inl empty ↦
          rw (empty, consider, counter_at-none slots i empty, ge→ltb c 0 (omega arith)) refl
      | inr (t, taken) ↦
          let value = counter_at-some slots i t taken in
          let low : t.counter % 2 ^ 32 ≡ t.counter = omega arith in
          rw (taken, consider, value, same, low) refl
    ]

-- What the search over slots 1 to i makes of (c, next).
pub record IsBest (slots : Slots) (i c next : ℕ) (best : ℕ × ℕ) : Type 0 where
  pub value :
      (best ≡ (c, next))
      ⊎ ((c < best.0) × (1 ≤ best.1) × (best.1 ≤ i) × (counter_at slots best.1 ≡ best.0))
  pub largest : (j : ℕ) → 1 ≤ j → j ≤ i → counter_at slots j ≤ best.0
  pub grows : c ≤ best.0
  pub fits : best.0 < 2 ^ 31
  pub ties : (j : ℕ) → c < best.0 → best.1 < j → j ≤ i → counter_at slots j < best.0

taken :
    (slots : Slots) (i c next : ℕ) (best : ℕ × ℕ)
    → c < counter_at slots (suc i)
    → IsBest slots i (counter_at slots (suc i)) (suc i) best
    → IsBest slots (suc i) c next best
taken slots i c next best lt g =
    let c' = counter_at slots (suc i) in
    record {
      value = elim g.value [
        | inl e ↦
            let top : best.1 ≡ suc i = ap (λ x. x.1) e in
            inr (
              omega (arith, g.grows),
              omega arith,
              omega arith,
              ap (counter_at slots) top ∙ sym (ap (λ x. x.0) e),
            )
        | inr (up, lo, hi, at) ↦ inr (omega arith, lo, omega arith, at)
      ];
      largest = λ j lo hi. split slots i (λ x. x ≤ best.0) g.grows j hi (λ hi'. g.largest j lo hi');
      grows = omega (arith, g.grows);
      fits = g.fits;
      ties = λ j up after hi. elim g.value [
        | inl e ↦ let top : best.1 ≡ suc i = ap (λ x. x.1) e in absurd (omega arith)
        | inr (up', lo, hi', at) ↦
            split slots i (λ x. x < best.0) up' j hi (λ hi''. g.ties j up' after hi'')
      ];
    }
  where
    split :
        (slots : Slots) (i : ℕ) (P : ℕ → Type 0)
        → P (counter_at slots (suc i))
        → (j : ℕ) → j ≤ suc i
        → (j ≤ i → P (counter_at slots j))
        → P (counter_at slots j)
    split slots i P last j hi before = elim (Bool-cases (j == suc i)) [
      | inl e ↦ let same : suc i ≡ j = ground arith in subst (λ x. P (counter_at slots x)) same last
      | inr ne ↦ before (ground arith)
    ]

passed :
    (slots : Slots) (i c next : ℕ) (best : ℕ × ℕ)
    → counter_at slots (suc i) ≤ c
    → IsBest slots i c next best
    → IsBest slots (suc i) c next best
passed slots i c next best ge g = record {
  value = elim g.value [ inl e ↦ inl e | inr (up, lo, hi, at) ↦ inr (up, lo, omega arith, at) ];
  largest = λ j lo hi. elim (Bool-cases (j == suc i)) [
    | inl e ↦
        let same : suc i ≡ j = ground arith in
        subst (λ x. counter_at slots x ≤ best.0) same (omega (arith, g.grows))
    | inr ne ↦ g.largest j lo (ground arith)
  ];
  grows = g.grows;
  fits = g.fits;
  ties = λ j up after hi. elim (Bool-cases (j == suc i)) [
    | inl e ↦
        let same : suc i ≡ j = ground arith in
        subst (λ x. counter_at slots x < best.0) same (omega arith)
    | inr ne ↦ g.ties j up after (ground arith)
  ];
}

pub scan-IsBest :
    (slots : Slots) (i c next : ℕ)
    → Small slots
    → c < 2 ^ 31
    → IsBest slots i c next (scan i slots (c, next))
unfolding scan Small
scan-IsBest slots zero c next small fits = record {
  value = inl refl;
  largest = λ j lo hi. absurd (omega arith);
  grows = omega arith;
  fits = fits;
  ties = λ j lt lo hi. absurd (omega arith);
}
scan-IsBest slots (suc i) c next small fits = elim (Bool-cases (ltb c (counter_at slots (suc i)))) [
  | inl more ↦
      let c' = counter_at slots (suc i) in
      let lt : c < c' = ltb→lt c c' more in
      let g = scan-IsBest slots i c' (suc i) small (small (suc i)) in
      let run : scan (suc i) slots (c, next) ≡ scan i slots (c', suc i) =
        ap (scan i slots) (consider-counter slots (suc i) c next small fits ∙ rw more refl) in
      subst (IsBest slots (suc i) c next) (sym run) (taken slots i c next _ lt g)
  | inr less ↦
      let ge : counter_at slots (suc i) ≤ c = ground arith in
      let g = scan-IsBest slots i c next small fits in
      let run : scan (suc i) slots (c, next) ≡ scan i slots (c, next) =
        ap (scan i slots) (consider-counter slots (suc i) c next small fits ∙ rw less refl) in
      subst (IsBest slots (suc i) c next) (sym run) (passed slots i c next _ ge g)
]
