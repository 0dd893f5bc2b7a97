-- ===== src/Paging/Early.antt =====
-- The early page table: what setup_vm leaves, and the translation it gives.
use simple_rv64os.Base.{
  ℕ, zero, suc, ◌+◌, ◌-◌, ◌*◌, ◌/◌, ◌%◌, ◌^◌, ◌<◌, ◌≤◌, ◌≡◌, refl, ◌∙◌, ap, inl, inr, Option, none,
  some, arith, bit_and, bit_or, ltb, leb, ◌==◌, if◌then◌else◌, ◌&&◌, Bool-cases, ltb→lt, lt→ltb,
  ge→ltb,
}
use simple_rv64os.Base.Arrays.{put}
use simple_rv64os.Base.Masks.{and_low, or_disjoint}
use simple_rv64os.Base.Word.{add64}
use simple_rv64os.Defs.{phy_start, vm_start, vm_size, vpn, pg_num}
use simple_rv64os.Paging.{Table, map_early_pgtbl, map_both, early_loop, setup_vm, early_pgsize}

-- A one-level walk: the entry of the address's gigabyte, read as a leaf.
pub translate_early : Table → ℕ → Option ℕ
translate_early table va =
    let pte = table (va / 2 ^ 30 % 2 ^ 9) in
    if pte % 2 == 1 then some (pte / 2 ^ 10 * 2 ^ 12 + va % 2 ^ 30) else none

-- The table after `k` gigabytes.
pub early_table : ℕ → Table
early_table k i =
    if leb 2 i && ltb i (2 + k)
    then i * 2 ^ 28 + 15
    else if leb 384 i && ltb i (384 + k)
    then (i - 382) * 2 ^ 28 + 15
    else 0

map_both_lem :
    (t : Table) (k i : ℕ)
    → k < 124
    → map_both t (k * 2 ^ 30) i ≡ (
        if 384 + k == i
        then (2 + k) * 2 ^ 28 + 15
        else if 2 + k == i
        then (2 + k) * 2 ^ 28 + 15
        else t i)
unfolding map_both map_early_pgtbl put
map_both_lem t k i lt =
    let low : bit_and (add64 phy_start (k * 2 ^ 30) / 2 ^ 30) 511 ≡ 2 + k =
      and_low 9 (add64 phy_start (k * 2 ^ 30) / 2 ^ 30) ∙ omega arith in
    let high : bit_and (add64 vm_start (k * 2 ^ 30) / 2 ^ 30) 511 ≡ 384 + k =
      and_low 9 (add64 vm_start (k * 2 ^ 30) / 2 ^ 30) ∙ omega arith in
    let frame : vpn (pg_num (add64 phy_start (k * 2 ^ 30))) ≡ (2 + k) * 2 ^ 28 = omega arith in
    let pte : bit_or (vpn (pg_num (add64 phy_start (k * 2 ^ 30)))) 15 ≡ (2 + k) * 2 ^ 28 + 15 =
      ap (λ x. bit_or x 15) frame ∙ or_disjoint 28 (2 + k) 15 (omega arith) in
    rw (low, high, pte) refl

early_table-suc :
    (k i : ℕ)
    → k < 124
    → (if 384 + k == i
        then (2 + k) * 2 ^ 28 + 15
        else if 2 + k == i
        then (2 + k) * 2 ^ 28 + 15
        else early_table k i)
      ≡ early_table (k + 1) i
unfolding early_table
early_table-suc k i lt = ground arith

early_loop_lem :
    (left k : ℕ) (t : Table)
    → k ≤ 124
    → 124 < k + left
    → ((i : ℕ) → i < 2 ^ 9 → t i ≡ early_table k i)
    → (i : ℕ) → i < 2 ^ 9
    → early_loop left (k * 2 ^ 30) t i ≡ early_table 124 i
unfolding early_loop
early_loop_lem zero k t le enough h i small = absurd (omega arith)
early_loop_lem (suc left) k t le enough h i small = elim (Bool-cases (ltb k 124)) [
  | inl more ↦
      let lt : k < 124 = ltb→lt k 124 more in
      let next : add64 (k * 2 ^ 30) early_pgsize ≡ (k + 1) * 2 ^ 30 = omega arith in
      let ih =
        early_loop_lem left (k + 1) (map_both t (k * 2 ^ 30)) (omega arith) (omega arith)
          (λ j lt'.
            map_both_lem t k j lt
            ∙ ap
                (λ x.
                  if 384 + k == j
                  then (2 + k) * 2 ^ 28 + 15
                  else if 2 + k == j
                  then (2 + k) * 2 ^ 28 + 15
                  else x)
                (h j lt')
            ∙ early_table-suc k j lt)
          i small in
      rw (lt→ltb (k * 2 ^ 30) vm_size (omega arith))
        (ap (λ x. early_loop left x (map_both t (k * 2 ^ 30)) i) next ∙ ih)
  | inr last ↦
      let same : k ≡ 124 = ground arith in
      rw (ge→ltb (k * 2 ^ 30) vm_size (omega arith)) (h i small ∙ ap (λ x. early_table x i) same)
]

setup_vm-early_table : (t : Table) (i : ℕ) → i < 2 ^ 9 → setup_vm t i ≡ early_table 124 i
unfolding setup_vm
setup_vm-early_table t i small =
    early_loop_lem 125 0 (λ j. if ltb j 512 then 0 else t j) (omega arith) (omega arith)
      (λ j lt. unfold early_table in ground arith) i small

translated :
    (table : Table) (va q r pa : ℕ)
    → va ≡ q * 2 ^ 30 + r
    → r < 2 ^ 30
    → q % 2 ^ 9 ≡ q % 512
    → table (q % 512) ≡ pa * 2 ^ 28 + 15
    → translate_early table va ≡ some (pa * 2 ^ 30 + r)
unfolding translate_early
translated table va q r pa e lt idx at =
    let index : va / 2 ^ 30 % 2 ^ 9 ≡ q % 512 = omega arith in
    let low : va % 2 ^ 30 ≡ r = omega arith in
    let valid : (pa * 2 ^ 28 + 15) % 2 ≡ 1 = omega arith in
    let up : (pa * 2 ^ 28 + 15) / 2 ^ 10 * 2 ^ 12 ≡ pa * 2 ^ 30 = omega arith in
    rw (index, at, valid, low) (ap (λ x. some (x + r)) up)

-- With the table that setup_vm leaves, whatever it held before, each address of the 124 GiB from
-- PHY_START translates to itself, the address at the same offset from VM_START translates to the
-- same, and an address whose gigabyte is in neither range is not mapped.
pub setup_vm-translate_early :
    (t : Table) (x va : ℕ)
    → x < vm_size
    → (2 ≤ va / 2 ^ 30 % 2 ^ 9 → 126 ≤ va / 2 ^ 30 % 2 ^ 9)
    → (384 ≤ va / 2 ^ 30 % 2 ^ 9 → 508 ≤ va / 2 ^ 30 % 2 ^ 9)
    → (translate_early (setup_vm t) (phy_start + x) ≡ some (phy_start + x))
      × (translate_early (setup_vm t) (vm_start + x) ≡ some (phy_start + x))
      × (translate_early (setup_vm t) va ≡ none)
setup_vm-translate_early t x va inside out_low out_high =
    let q = x / 2 ^ 30 in
    let r = x % 2 ^ 30 in
    let parts : x ≡ q * 2 ^ 30 + r = omega arith in
    let few : q < 124 = omega arith in
    let first : (2 + q) % 512 ≡ 2 + q = omega arith in
    let second : (0x3ffff_ff80 + q) % 512 ≡ 384 + q = omega arith in
    let low_at : setup_vm t ((2 + q) % 512) ≡ (2 + q) * 2 ^ 28 + 15 =
      ap (setup_vm t) first ∙ setup_vm-early_table t (2 + q) (omega arith) ∙ low_entry q few in
    let high_at : setup_vm t ((0x3ffff_ff80 + q) % 512) ≡ (2 + q) * 2 ^ 28 + 15 =
      ap (setup_vm t) second ∙ setup_vm-early_table t (384 + q) (omega arith) ∙ high_entry q few in
    let back : (2 + q) * 2 ^ 30 + r ≡ phy_start + x = omega arith in
    (
      translated (setup_vm t) (phy_start + x) (2 + q) r (2 + q) (omega arith) (omega arith) refl
            low_at
          ∙ ap some back,
      translated (setup_vm t) (vm_start + x) (0x3ffff_ff80 + q) r (2 + q) (omega arith)
            (omega arith) refl high_at
          ∙ ap some back,
      unmapped,
    )
  where
    low_entry : (q : ℕ) → q < 124 → early_table 124 (2 + q) ≡ (2 + q) * 2 ^ 28 + 15
    low_entry q lt = unfold early_table in ground arith

    high_entry : (q : ℕ) → q < 124 → early_table 124 (384 + q) ≡ (2 + q) * 2 ^ 28 + 15
    high_entry q lt = unfold early_table in ground arith

    empty_entry : (i : ℕ) → (2 ≤ i → 126 ≤ i) → (384 ≤ i → 508 ≤ i) → early_table 124 i ≡ 0
    empty_entry i a b = unfold early_table in ground arith

    unmapped : translate_early (setup_vm t) va ≡ none
    unmapped =
        let i = va / 2 ^ 30 % 2 ^ 9 in
        let at : setup_vm t i ≡ 0 =
          setup_vm-early_table t i (omega arith) ∙ empty_entry i out_low out_high in
        unfold translate_early in rw at refl
