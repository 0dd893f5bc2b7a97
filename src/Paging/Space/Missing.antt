-- ===== src/Paging/Space/Missing.antt =====
-- The tables that are missing on the way to a page.
use simple_rv64os.Base.{
  ℕ, ◌+◌, ◌-◌, ◌*◌, ◌/◌, ◌%◌, ◌^◌, ◌≤◌, ◌≡◌, refl, ◌∙◌, ap, inl, inr, arith, ◌==◌, if◌then◌else◌,
}
use simple_rv64os.Bytes.{Bytes, load64}
use simple_rv64os.Defs.{vpn_1, vpn_2}
use simple_rv64os.Defs.Laws.{vpn_1_lem, vpn_2_lem}
use simple_rv64os.Paging.{Machine}
use simple_rv64os.Paging.Map.{Way}
use simple_rv64os.Paging.Walk.{child}
use simple_rv64os.Paging.Space.{digit}
use simple_rv64os.Paging.Space.Look.{even_or_odd}

-- The number of the page of an address, of 27 bits.
abbrev pub page_of : ℕ → ℕ
page_of va = va / 4096 % 2 ^ 27

-- How many tables are missing on the way to the entry of a page.
pub levels_missing : Bytes → ℕ → ℕ → ℕ
levels_missing memory root page =
    let pte2 = load64 memory (root + 8 * digit 2 page) in
    let pte1 = load64 memory (child pte2 + 8 * digit 1 page) in
    if pte2 % 2 == 0 then 2 else 1 - pte1 % 2

pub levels_missing-le : (memory : Bytes) (root page : ℕ) → levels_missing memory root page ≤ 2
unfolding levels_missing
levels_missing-le memory root page = ground arith

-- Pages of one leaf table miss the same tables.
pub levels_missing-group :
    (memory : Bytes) (root page page' : ℕ)
    → page / 512 ≡ page' / 512
    → levels_missing memory root page ≡ levels_missing memory root page'
unfolding levels_missing
levels_missing-group memory root page page' same =
    let i2 : digit 2 page ≡ digit 2 page' = omega arith in
    let i1 : digit 1 page ≡ digit 1 page' = omega arith in
    let way = λ (i j : ℕ).
      let pte2 = load64 memory (root + 8 * i) in
      if pte2 % 2 == 0 then 2 else 1 - load64 memory (child pte2 + 8 * j) % 2 in
    ap (λ i. way i (digit 1 page)) i2 ∙ ap (way (digit 2 page')) i1

-- No table is missing on a way.
pub Way-ready :
    (memory : Bytes) (pgtbl mid leaf va pte : ℕ)
    → Way memory pgtbl mid leaf va pte
    → levels_missing memory pgtbl (page_of va) ≡ 0
unfolding levels_missing
Way-ready memory pgtbl mid leaf va pte way =
    let i2 : digit 2 (page_of va) ≡ va / 2 ^ 30 % 2 ^ 9 = omega arith in
    let i1 : digit 1 (page_of va) ≡ va / 2 ^ 21 % 2 ^ 9 = omega arith in
    let e2 = ap (λ x. load64 memory (pgtbl + 8 * x)) i2 in
    let e1 =
      ap (λ x. load64 memory (x + 8 * digit 1 (page_of va))) (ap child e2 ∙ way.leads2)
      ∙ ap (λ x. load64 memory (mid + 8 * x)) i1 in
    let on2 = ap (λ x. x % 2) e2 ∙ way.valid2 in
    let on1 = ap (λ x. x % 2) e1 ∙ way.valid1 in rw (on2, on1) refl

-- What the two levels take, all told.
pub tables-taken :
    (m m1 : Machine) (root mid va free free1 free2 : ℕ)
    → free ≤ 1 - load64 m.memory (root + 8 * vpn_2 va) % 2 + free1
    → free1 ≤ 1 - load64 m1.memory (mid + 8 * vpn_1 va) % 2 + free2
    → (load64 m.memory (root + 8 * vpn_2 va) % 2 ≡ 1
        → (m1 ≡ m) × (mid ≡ child (load64 m.memory (root + 8 * vpn_2 va))))
    → free ≤ levels_missing m.memory root (page_of va) + free2
unfolding levels_missing
tables-taken m m1 root mid va free free1 free2 cost2 cost1 kept =
    let i2 : digit 2 (page_of va) ≡ vpn_2 va = omega (arith, vpn_2_lem va) in
    let i1 : digit 1 (page_of va) ≡ vpn_1 va = omega (arith, vpn_1_lem va) in
    let pte2 = load64 m.memory (root + 8 * vpn_2 va) in
    elim (even_or_odd pte2) [
      | inl off ↦ rw (i2, off) (omega arith)
      | inr on ↦
          let (same, at) = kept on in
          let entry : load64 m1.memory (mid + 8 * vpn_1 va)
              ≡ load64 m.memory (child pte2 + 8 * vpn_1 va) =
            ap (λ x. load64 x.memory (mid + 8 * vpn_1 va)) same
            ∙ ap (λ x. load64 m.memory (x + 8 * vpn_1 va)) at in
          rw (i2, i1, on) (omega arith)
    ]
