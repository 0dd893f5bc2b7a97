-- ===== src/Paging/Space/Refines.antt =====
-- map_final_pgtbl as the write of one page in the map from pages to frames and rights.
use simple_rv64os.Base.{
  ℕ, ◌+◌, ◌*◌, ◌/◌, ◌%◌, ◌^◌, ◌<◌, ◌≤◌, ◌≡◌, ◌≢◌, refl, sym, ◌∙◌, ap, subst, inl, inr, some, List,
  [], ◌∷◌, arith, bit_or, pow-le,
}
use simple_rv64os.Base.Arrays.{put, put-same, put-other}
use simple_rv64os.Base.Lists.{length}
use simple_rv64os.Base.Masks.{or_low, or_ones, or_disjoint}
use simple_rv64os.Bytes.{Bytes, load64}
use simple_rv64os.Bytes.Words.{Outside, store64-Outside}
use simple_rv64os.Defs.{addr2pte, pte_v, vpn_0, vpn_1, vpn_2}
use simple_rv64os.Defs.Laws.{vpn_0_lem, vpn_1_lem, vpn_2_lem}
use simple_rv64os.Paging.{Machine, entry, set_leaf, map_final_pgtbl}
use simple_rv64os.Paging.Map.{leaf_entry, Way, set_leaf-Way}
use simple_rv64os.Paging.Walk.{child, IsTable, entry_lem}
use simple_rv64os.Paging.Space.{look, digit, fields, view, Owner, IsSpace}
use simple_rv64os.Paging.Space.Page.{page_at, free_count}
use simple_rv64os.Paging.Space.Apart.{page-apart, page_at-IsTable}
use simple_rv64os.Paging.Space.Grow.{DataKept, DataKept-trans, Grows}
use simple_rv64os.Paging.Space.Descend.{next_table-Descends}
use simple_rv64os.Paging.Space.Missing.{page_of, levels_missing, Way-ready, tables-taken}
use simple_rv64os.Paging.Space.Leaf.{trail, written-IsSpace, look-written}
use simple_rv64os.Paging.Space.Link.{eq_or_ne}
use simple_rv64os.Paging.Space.Look.{look-leaf, look-step}

-- The map is as before but for one page, and a page is taken for each table that was missing.
pub record Maps (d : ℕ) (m : Machine) (root : ℕ) (owner : Owner) (va pa perm : ℕ) (m' : Machine)
    (owner' : Owner) : Type 0 where
  pub space : IsSpace d m' root owner'
  pub mapped :
      (page : ℕ)
      → page < 2 ^ 27
      → view m'.memory root page
        ≡ put (view m.memory root) (page_of va) (some (pa / 4096, bit_or perm pte_v)) page
  pub data_kept : DataKept d m owner m' owner'
  pub room :
      free_count (2 ^ d) d m.buddy
      ≤ levels_missing m.memory root (page_of va) + free_count (2 ^ d) d m'.buddy
  pub ready : levels_missing m'.memory root (page_of va) ≡ 0

leaf_fields :
    (pa perm : ℕ)
    → pa < 2 ^ 56
    → perm < 2 ^ 10
    → fields (some (bit_or (addr2pte pa) (bit_or perm pte_v))) ≡ some (pa / 4096, bit_or perm pte_v)
leaf_fields pa perm fits small =
    let rights : bit_or perm pte_v ≡ perm / 2 * 2 + 1 =
      or_low 1 perm 1 (omega arith)
      ∙ ap (λ x. perm / 2 * 2 + x) (or_ones 1 (perm % 2) (omega arith)) in
    let frame : addr2pte pa ≡ pa / 2 ^ 12 * 2 ^ 10 = omega arith in
    let whole : bit_or (addr2pte pa) (bit_or perm pte_v)
        ≡ pa / 2 ^ 12 * 2 ^ 10 + bit_or perm pte_v =
      ap (λ x. bit_or x (bit_or perm pte_v)) frame
      ∙ or_disjoint 10 (pa / 2 ^ 12) (bit_or perm pte_v) (omega arith) in
    let high : bit_or (addr2pte pa) (bit_or perm pte_v) / 2 ^ 10 ≡ pa / 4096 = omega arith in
    let low : bit_or (addr2pte pa) (bit_or perm pte_v) % 2 ^ 10 ≡ bit_or perm pte_v = omega arith in
    ap (λ x. some (x, bit_or (addr2pte pa) (bit_or perm pte_v) % 2 ^ 10)) high
    ∙ ap (λ x. some (pa / 4096, x)) low

-- The page of va is found at the end of the way.
look-Way :
    (memory : Bytes) (pgtbl mid leaf va pte page : ℕ)
    → Way memory pgtbl mid leaf va pte
    → pte % 2 ≡ 1
    → page ≡ page_of va
    → look 2 memory pgtbl page ≡ some pte
look-Way memory pgtbl mid leaf va pte page way valid same =
    let i2 : digit 2 page ≡ va / 2 ^ 30 % 2 ^ 9 = omega arith in
    let i1 : digit 1 page ≡ va / 2 ^ 21 % 2 ^ 9 = omega arith in
    let i0 : digit 0 page ≡ va / 2 ^ 12 % 2 ^ 9 = omega arith in
    let e2 = ap (λ x. load64 memory (pgtbl + 8 * x)) i2 in
    let e1 = ap (λ x. load64 memory (mid + 8 * x)) i1 in
    let e0 = ap (λ x. load64 memory (leaf + 8 * x)) i0 ∙ way.at_leaf in
    look-step 1 memory pgtbl page (ap (λ x. x % 2) e2 ∙ way.valid2)
    ∙ ap (λ x. look 1 memory x page) (ap child e2 ∙ way.leads2)
    ∙ look-step 0 memory mid page (ap (λ x. x % 2) e1 ∙ way.valid1)
    ∙ ap (λ x. look 0 memory x page) (ap child e1 ∙ way.leads1)
    ∙ look-leaf memory leaf page (ap (λ x. x % 2) e0 ∙ valid)
    ∙ ap some e0

-- Another page goes another way.
other-trail :
    (va page : ℕ)
    → page < 2 ^ 27
    → page ≢ page_of va
    → trail 2 page [] ≢ vpn_0 va ∷ vpn_1 va ∷ vpn_2 va ∷ []
other-trail va page small ne e =
    let i2 : digit 2 page ≡ vpn_2 va = cc in
    let i1 : digit 1 page ≡ vpn_1 va = cc in
    let i0 : digit 0 page ≡ vpn_0 va = cc in
    ne (omega (arith, i2, i1, i0, vpn_2_lem va, vpn_1_lem va, vpn_0_lem va))

module _ (d : ℕ) (m m1 m2 : Machine) (root : ℕ) (owner o1 o2 : Owner) (va pa perm mid leaf : ℕ)
    (table : IsTable root) (small : d ≤ 25) (fits : pa < 2 ^ 56) (few : perm < 2 ^ 10)
    (g1 : Grows d m root owner m1 o1) (g2 : Grows d m1 root o1 m2 o2)
    (way : Way
      (set_leaf m2 leaf va pa perm).memory
      root
      mid
      leaf
      va
      (bit_or (addr2pte pa) (bit_or perm pte_v)))
    (at : o2 leaf ≡ some (vpn_1 va ∷ vpn_2 va ∷ [])) where
  abbrev m' : Machine
  m' = set_leaf m2 leaf va pa perm

  abbrev pte : ℕ
  pte = bit_or (addr2pte pa) (bit_or perm pte_v)

  deep : length (vpn_1 va ∷ vpn_2 va ∷ []) ≡ 2
  unfolding length
  deep = refl

  lt0 : vpn_0 va < 2 ^ 9
  lt0 = omega (arith, vpn_0_lem va)

  at_entry : entry leaf (vpn_0 va) ≡ leaf + 8 * vpn_0 va
  at_entry = entry_lem leaf (vpn_0 va) (g2.space.is_table leaf _ at) lt0

  set-IsSpace : IsSpace d m' root o2
  unfolding set_leaf
  set-IsSpace = rw at_entry (
      written-IsSpace d m2 root o2 g2.space small leaf (vpn_1 va ∷ vpn_2 va ∷ []) (vpn_0 va) at deep
        lt0 pte)

  set-missed :
      (page : ℕ)
      → page < 2 ^ 27
      → page ≢ page_of va
      → look 2 m'.memory root page ≡ look 2 m2.memory root page
  unfolding set_leaf
  set-missed page low ne = rw at_entry (
      look-written d m2 root o2 g2.space small leaf (vpn_1 va ∷ vpn_2 va ∷ []) (vpn_0 va) at deep
        lt0 pte 2 root [] page g2.space.at_root (unfold length in omega arith)
        (other-trail va page low ne))

  set-DataKept : DataKept d m2 o2 m' o2
  unfolding set_leaf
  set-DataKept p within used data_page =
      let apart : leaf ≢ page_at p = λ e. cc (sym at ∙ ap o2 e ∙ data_page) in
      (
        used,
        data_page,
        λ b lo hi. store64-Outside m2.memory (entry leaf (vpn_0 va)) pte b (
            subst (λ x. Outside x b) (sym at_entry)
              (page-apart leaf (vpn_0 va) (page_at p) b (g2.space.is_table leaf _ at) lt0
                (page_at-IsTable p (omega (arith, pow-le d 25 small))).0 apart lo hi)),
      )

  set-mapped :
      (page : ℕ)
      → page < 2 ^ 27
      → view m'.memory root page
        ≡ put (view m.memory root) (page_of va) (some (pa / 4096, bit_or perm pte_v)) page
  set-mapped page low = elim (eq_or_ne page (page_of va)) [
    | inl here ↦
        ap fields
          (look-Way m'.memory root mid leaf va pte page way (leaf_entry pa perm fits few).0 here)
        ∙ leaf_fields pa perm fits few
        ∙ sym (
            ap (put (view m.memory root) (page_of va) (some (pa / 4096, bit_or perm pte_v))) here
            ∙ put-same (view m.memory root) (page_of va) (some (pa / 4096, bit_or perm pte_v)))
    | inr other ↦
        ap fields (set-missed page low other ∙ g2.same page ∙ g1.same page)
        ∙ sym (
            put-other (view m.memory root) (page_of va) (some (pa / 4096, bit_or perm pte_v)) page
              (λ e. other (sym e)))
  ]

  pub set-Maps :
      free_count (2 ^ d) d m.buddy
        ≤ levels_missing m.memory root (page_of va) + free_count (2 ^ d) d m2.buddy
      → Maps d m root owner va pa perm m' o2
  set-Maps room = record {
    space = set-IsSpace;
    mapped = set-mapped;
    data_kept =
        DataKept-trans d m m1 m' owner o1 o2 g1.data_kept
          (DataKept-trans d m1 m2 m' o1 o2 o2 g2.data_kept set-DataKept);
    room = unfold set_leaf in room;
    ready = Way-ready m'.memory root mid leaf va pte way;
  }

distinct-places :
    (owner : Owner) (s t : ℕ) (p q : List ℕ) → owner s ≡ some p → owner t ≡ some q → p ≢ q → s ≢ t
distinct-places owner s t p q here there ne e = ne (cc (sym here ∙ ap owner e ∙ there))

-- On a tree of tables with two pages left, map_final_pgtbl of a page at `pa` with the rights `perm`
-- returns, and changes the map from pages to frames and rights at the page of va, to the frame of `pa`
-- and `perm` with the valid bit, and nowhere else. The tables are a tree still, pages in use
-- that are no tables keep their bytes, and a page is taken for
-- each of the two tables on the way that was missing, after which none is.
pub map_final_pgtbl-Maps :
    (d : ℕ) (m : Machine) (root : ℕ) (owner : Owner) (va pa perm : ℕ)
    → IsSpace d m root owner
    → d ≤ 25
    → 2 ≤ free_count (2 ^ d) d m.buddy
    → pa < 2 ^ 56
    → perm < 2 ^ 10
    → (m' : Machine) × (owner' : Owner) × (map_final_pgtbl m root va pa perm ≡ some m')
      × Maps d m root owner va pa perm m' owner'
unfolding map_final_pgtbl
map_final_pgtbl-Maps d m root owner va pa perm space small left fits few =
    let (mid, m1, o1, down2, g1, at1, cost2, kept) =
      next_table-Descends d m root owner space small root [] (vpn_2 va) space.at_root
        (omega (arith, vpn_2_lem va)) (unfold length in omega arith) (omega arith) in
    let (leaf, m2, o2, down1, g2, at0, cost1, _) =
      next_table-Descends d m1 root o1 g1.space small mid (vpn_2 va ∷ []) (vpn_1 va) at1
        (omega (arith, vpn_1_lem va)) (unfold length in omega arith) (omega (arith, g1.room)) in
    let mid2 = g2.tables mid (vpn_2 va ∷ []) at1 in
    let root2 = g2.space.at_root in
    let table = space.is_table root [] space.at_root in
    let way =
      set_leaf-Way m m1 m2 root mid leaf va pa perm table down2 down1
        (distinct-places o2 root mid _ _ root2 mid2 (λ e. cc))
        (distinct-places o2 root leaf _ _ root2 at0 (λ e. cc))
        (distinct-places o2 mid leaf _ _ mid2 at0 (λ e. cc)) fits few in
    (
      set_leaf m2 leaf va pa perm,
      o2,
      rw (map_final_pgtbl, down2, down1) refl,
      set-Maps d m m1 m2 root owner o1 o2 va pa perm mid leaf table small fits few g1 g2 way at0 (
          tables-taken m m1 root mid va (free_count (2 ^ d) d m.buddy)
            (free_count (2 ^ d) d m1.buddy) (free_count (2 ^ d) d m2.buddy) cost2 cost1 kept),
    )
