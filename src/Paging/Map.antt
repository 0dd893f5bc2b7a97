-- ===== src/Paging/Map.antt =====
-- What map_final_pgtbl maps.
use simple_rv64os.Base.{
  ℕ, ◌+◌, ◌*◌, ◌/◌, ◌%◌, ◌^◌, ◌<◌, ◌≤◌, ◌≡◌, ◌≢◌, refl, sym, ◌∙◌, ap, subst, Bool, true, false, not,
  Option, none, some, arith, bit_or, ◌==◌, if◌then◌else◌,
}
use simple_rv64os.Base.Masks.{or_low, or_ones, or_disjoint}
use simple_rv64os.Defs.{addr2pte, pte2va, pte_v, pte_valid, vpn_0, vpn_1, vpn_2}
use simple_rv64os.Defs.Laws.{vpn_0_lem, vpn_1_lem, vpn_2_lem, pte_valid_lem}
use simple_rv64os.Bytes.{Bytes, load64}
use simple_rv64os.Bytes.Words.{Outside, load64-store64, store64-Outside, load64-same}
use simple_rv64os.Paging.{Machine, entry, next_table, set_leaf, map_final_pgtbl, is_va_mapped}
use simple_rv64os.Paging.Walk.{
  child, translate, IsTable, child-IsTable, pte2va-child, entry_lem, entry-apart, next_table-Leads,
}

-- The entry of a page at `pa` with the rights `perm`.
pub leaf_entry :
    (pa perm : ℕ)
    → pa < 2 ^ 56
    → perm < 2 ^ 10
    → (bit_or (addr2pte pa) (bit_or perm pte_v) % 2 ≡ 1)
      × (bit_or (addr2pte pa) (bit_or perm pte_v) / 2 ^ 10 ≡ pa / 2 ^ 12)
leaf_entry pa perm fits small =
    let rights : bit_or perm pte_v ≡ perm / 2 * 2 + 1 =
      or_low 1 perm 1 (omega arith)
      ∙ ap (λ x. perm / 2 * 2 + x) (or_ones 1 (perm % 2) (omega arith)) in
    let frame : addr2pte pa ≡ pa / 2 ^ 12 * 2 ^ 10 = omega arith in
    let whole : bit_or (addr2pte pa) (bit_or perm pte_v)
        ≡ pa / 2 ^ 12 * 2 ^ 10 + (perm / 2 * 2 + 1) =
      ap (λ x. bit_or x (bit_or perm pte_v)) frame
      ∙ ap (bit_or (pa / 2 ^ 12 * 2 ^ 10)) rights
      ∙ or_disjoint 10 (pa / 2 ^ 12) (perm / 2 * 2 + 1) (omega arith) in
    (omega arith, omega arith)

-- Three valid entries in a row translate.
pub translate-some :
    (memory : Bytes) (pgtbl mid leaf pte va : ℕ)
    → load64 memory (pgtbl + 8 * (va / 2 ^ 30 % 2 ^ 9)) % 2 ≡ 1
    → child (load64 memory (pgtbl + 8 * (va / 2 ^ 30 % 2 ^ 9))) ≡ mid
    → load64 memory (mid + 8 * (va / 2 ^ 21 % 2 ^ 9)) % 2 ≡ 1
    → child (load64 memory (mid + 8 * (va / 2 ^ 21 % 2 ^ 9))) ≡ leaf
    → load64 memory (leaf + 8 * (va / 2 ^ 12 % 2 ^ 9)) ≡ pte
    → pte % 2 ≡ 1
    → translate memory pgtbl va ≡ some (pte / 2 ^ 10 * 2 ^ 12 + va % 2 ^ 12)
unfolding translate
translate-some memory pgtbl mid leaf pte va v2 c2 v1 c1 at v0 = rw (c2, v2, c1, v1, at, v0) refl

unfoldable pub is_mapped : Option ℕ → Bool
is_mapped none = false
is_mapped (some pa) = true

all_valid : ℕ → ℕ → ℕ → Bool
all_valid a b c =
    if pte_valid a == 0 then false else if pte_valid b == 0 then false else not (pte_valid c == 0)

all_valid_lem :
    (a b c r : ℕ)
    → all_valid a b c
      ≡ is_mapped (
          if a % 2 == 0
          then none
          else if b % 2 == 0
          then none
          else if c % 2 == 0
          then none
          else some r)
unfolding all_valid is_mapped
all_valid_lem a b c r =
    rw (pte_valid_lem a, pte_valid_lem b, pte_valid_lem c)
      (go (a % 2 == 0) (b % 2 == 0) (c % 2 == 0))
  where
    go :
        (x y z : Bool)
        → (if x then false else if y then false else not z)
          ≡ is_mapped (if x then none else if y then none else if z then none else some r)
    go true y z = refl
    go false true z = refl
    go false false true = refl
    go false false false = refl

-- is_va_mapped, on a root at the start of a page, says whether the walk of the three levels gives an
-- address.
pub is_va_mapped-translate :
    (memory : Bytes) (va pgtbl : ℕ)
    → IsTable pgtbl
    → is_va_mapped memory va pgtbl ≡ is_mapped (translate memory pgtbl va)
unfolding is_va_mapped translate all_valid
is_va_mapped-translate memory va pgtbl root =
    let x2 = load64 memory (entry pgtbl (vpn_2 va)) in
    let y2 = load64 memory (pgtbl + 8 * (va / 2 ^ 30 % 2 ^ 9)) in
    let x1 = load64 memory (entry (pte2va x2) (vpn_1 va)) in
    let y1 = load64 memory (child y2 + 8 * (va / 2 ^ 21 % 2 ^ 9)) in
    let x0 = load64 memory (entry (pte2va x1) (vpn_0 va)) in
    let y0 = load64 memory (child y1 + 8 * (va / 2 ^ 12 % 2 ^ 9)) in
    let same2 : x2 ≡ y2 = ap (load64 memory) (
      ap (entry pgtbl) (vpn_2_lem va) ∙ entry_lem pgtbl (va / 2 ^ 30 % 2 ^ 9) root (omega arith)) in
    let same1 : x1 ≡ y1 = ap (load64 memory) (
      below x2 (vpn_1 va) (va / 2 ^ 21 % 2 ^ 9) (vpn_1_lem va) (omega arith)
      ∙ ap (λ x. child x + 8 * (va / 2 ^ 21 % 2 ^ 9)) same2) in
    let same0 : x0 ≡ y0 = ap (load64 memory) (
      below x1 (vpn_0 va) (va / 2 ^ 12 % 2 ^ 9) (vpn_0_lem va) (omega arith)
      ∙ ap (λ x. child x + 8 * (va / 2 ^ 12 % 2 ^ 9)) same1) in
    ap (λ a. all_valid a x1 x0) same2
    ∙ ap (λ b. all_valid y2 b x0) same1
    ∙ ap (all_valid y2 y1) same0
    ∙ all_valid_lem y2 y1 y0 (y0 / 2 ^ 10 * 2 ^ 12 + va % 2 ^ 12)
  where
    below : (pte v i : ℕ) → v ≡ i → i < 2 ^ 9 → entry (pte2va pte) v ≡ child pte + 8 * i
    below pte v i e lt =
        ap (entry (pte2va pte)) e
        ∙ ap (λ p. entry p i) (pte2va-child pte)
        ∙ entry_lem (child pte) i (child-IsTable pte) lt

leaf_entry-fits :
    (pa perm : ℕ) → pa < 2 ^ 56 → perm < 2 ^ 10 → bit_or (addr2pte pa) (bit_or perm pte_v) < 2 ^ 64
leaf_entry-fits pa perm fits small = omega (arith, (leaf_entry pa perm fits small).1)

-- The three entries on the way to va, as map_final_pgtbl leaves them.
pub record Way (memory : Bytes) (pgtbl mid leaf va pte : ℕ) : Type 0 where
  pub valid2 : load64 memory (pgtbl + 8 * (va / 2 ^ 30 % 2 ^ 9)) % 2 ≡ 1
  pub leads2 : child (load64 memory (pgtbl + 8 * (va / 2 ^ 30 % 2 ^ 9))) ≡ mid
  pub valid1 : load64 memory (mid + 8 * (va / 2 ^ 21 % 2 ^ 9)) % 2 ≡ 1
  pub leads1 : child (load64 memory (mid + 8 * (va / 2 ^ 21 % 2 ^ 9))) ≡ leaf
  pub at_leaf : load64 memory (leaf + 8 * (va / 2 ^ 12 % 2 ^ 9)) ≡ pte

pub set_leaf-Way :
    (m m1 m2 : Machine) (pgtbl mid leaf va pa perm : ℕ)
    → IsTable pgtbl
    → next_table m pgtbl (vpn_2 va) ≡ some (mid, m1)
    → next_table m1 mid (vpn_1 va) ≡ some (leaf, m2)
    → pgtbl ≢ mid
    → pgtbl ≢ leaf
    → mid ≢ leaf
    → pa < 2 ^ 56
    → perm < 2 ^ 10
    → Way
        (set_leaf m2 leaf va pa perm).memory
        pgtbl
        mid
        leaf
        va
        (bit_or (addr2pte pa) (bit_or perm pte_v))
unfolding set_leaf
set_leaf-Way m m1 m2 pgtbl mid leaf va pa perm root down2 down1 ne_rm ne_rl ne_ml fits small =
    let l2 = next_table-Leads m m1 pgtbl (vpn_2 va) mid down2 in
    let l1 = next_table-Leads m1 m2 mid (vpn_1 va) leaf down1 in
    let pte = bit_or (addr2pte pa) (bit_or perm pte_v) in
    let m' = set_leaf m2 leaf va pa perm in
    let mid_table : IsTable mid = subst IsTable l2.leads (child-IsTable _) in
    let leaf_table : IsTable leaf = subst IsTable l1.leads (child-IsTable _) in
    let e2 : entry pgtbl (vpn_2 va) ≡ pgtbl + 8 * (va / 2 ^ 30 % 2 ^ 9) =
      ap (entry pgtbl) (vpn_2_lem va) ∙ entry_lem pgtbl (va / 2 ^ 30 % 2 ^ 9) root (omega arith) in
    let e1 : entry mid (vpn_1 va) ≡ mid + 8 * (va / 2 ^ 21 % 2 ^ 9) =
      ap (entry mid) (vpn_1_lem va) ∙ entry_lem mid (va / 2 ^ 21 % 2 ^ 9) mid_table (omega arith) in
    let e0 : entry leaf (vpn_0 va) ≡ leaf + 8 * (va / 2 ^ 12 % 2 ^ 9) =
      ap (entry leaf) (vpn_0_lem va)
      ∙ entry_lem leaf (va / 2 ^ 12 % 2 ^ 9) leaf_table (omega arith) in
    let i2 = va / 2 ^ 30 % 2 ^ 9 in
    let i1 = va / 2 ^ 21 % 2 ^ 9 in
    let i0 = va / 2 ^ 12 % 2 ^ 9 in
    let from0 : (p i : ℕ)
        → IsTable p
        → i < 2 ^ 9
        → leaf ≢ p
        → (b : ℕ) → p + 8 * i ≤ b
        → b < p + 8 * i + 8
        → m'.memory b ≡ m2.memory b =
      λ p i table lt ne b lo hi. store64-Outside m2.memory (entry leaf (vpn_0 va)) pte b (
        subst (λ x. Outside x b) (sym e0)
          (entry-apart leaf p i0 i leaf_table table (omega arith) lt ne b lo hi)) in
    let from1 : (p i : ℕ)
        → IsTable p
        → i < 2 ^ 9
        → mid ≢ p
        → (b : ℕ) → p + 8 * i ≤ b
        → b < p + 8 * i + 8
        → m2.memory b ≡ m1.memory b =
      λ p i table lt ne b lo hi. l1.others b (
        subst (λ x. Outside x b) (sym e1)
          (entry-apart mid p i1 i mid_table table (omega arith) lt ne b lo hi)) in
    let at2 : load64 m'.memory (pgtbl + 8 * i2) ≡ load64 m1.memory (entry pgtbl (vpn_2 va)) =
      load64-same m'.memory m1.memory (pgtbl + 8 * i2) (λ b lo hi.
        from0 pgtbl i2 root (omega arith) (λ e. ne_rl (sym e)) b lo hi
        ∙ from1 pgtbl i2 root (omega arith) (λ e. ne_rm (sym e)) b lo hi)
      ∙ ap (load64 m1.memory) (sym e2) in
    let at1 : load64 m'.memory (mid + 8 * i1) ≡ load64 m2.memory (entry mid (vpn_1 va)) =
      load64-same m'.memory m2.memory (mid + 8 * i1)
        (from0 mid i1 mid_table (omega arith) (λ e. ne_ml (sym e)))
      ∙ ap (load64 m2.memory) (sym e1) in
    let at0 : load64 m'.memory (leaf + 8 * i0) ≡ pte =
      ap (load64 m'.memory) (sym e0)
      ∙ load64-store64 m2.memory _ pte (leaf_entry-fits pa perm fits small) in
    record {
      valid2 = ap (λ x. x % 2) at2 ∙ l2.valid;
      leads2 = ap child at2 ∙ l2.leads;
      valid1 = ap (λ x. x % 2) at1 ∙ l1.valid;
      leads1 = ap child at1 ∙ l1.leads;
      at_leaf = at0;
    }

-- On a root at the start of a page, where setting up the two lower levels gives tables that
-- differ from the root and from each other, `pa` is the start of a page below 2 ^ 56 and `perm`
-- has ten bits, map_final_pgtbl returns; the walk then takes va to its place in the page, the
-- allocator is as setting up the levels left it, and no byte outside the three entries on the
-- way has changed.
pub map_final_pgtbl-translate :
    (m m1 m2 : Machine) (pgtbl mid leaf va pa perm : ℕ)
    → IsTable pgtbl
    → next_table m pgtbl (vpn_2 va) ≡ some (mid, m1)
    → next_table m1 mid (vpn_1 va) ≡ some (leaf, m2)
    → pgtbl ≢ mid
    → pgtbl ≢ leaf
    → mid ≢ leaf
    → pa < 2 ^ 56
    → pa % 4096 ≡ 0
    → perm < 2 ^ 10
    → (m' : Machine) × (map_final_pgtbl m pgtbl va pa perm ≡ some m')
      × (translate m'.memory pgtbl va ≡ some (pa + va % 4096))
      × (m'.buddy ≡ m2.buddy)
      × ((a : ℕ)
          → Outside (entry pgtbl (vpn_2 va)) a
          → Outside (entry mid (vpn_1 va)) a
          → Outside (entry leaf (vpn_0 va)) a
          → m'.memory a ≡ m.memory a)
unfolding map_final_pgtbl set_leaf
map_final_pgtbl-translate m m1 m2 pgtbl mid leaf va pa perm root down2 down1 ne_rm ne_rl ne_ml fits
      aligned small =
    let l2 = next_table-Leads m m1 pgtbl (vpn_2 va) mid down2 in
    let l1 = next_table-Leads m1 m2 mid (vpn_1 va) leaf down1 in
    let pte = bit_or (addr2pte pa) (bit_or perm pte_v) in
    let m' = set_leaf m2 leaf va pa perm in
    let (valid, frame) = leaf_entry pa perm fits small in
    let way =
      set_leaf-Way m m1 m2 pgtbl mid leaf va pa perm root down2 down1 ne_rm ne_rl ne_ml fits
        small in
    let walked =
      translate-some m'.memory pgtbl mid leaf pte va way.valid2 way.leads2 way.valid1 way.leads1
        way.at_leaf valid in
    (
      m',
      rw (map_final_pgtbl, down2, down1) refl,
      walked ∙ ap some (omega arith),
      refl,
      λ a n2 n1 n0. store64-Outside m2.memory _ pte a n0 ∙ l1.others a n1 ∙ l2.others a n2,
    )
