-- ===== src/Paging/Space/Descend.antt =====
-- One level down in a tree of tables, set up where it was missing.
use simple_rv64os.Base.{
  ℕ, ◌+◌, ◌-◌, ◌*◌, ◌%◌, ◌^◌, ◌<◌, ◌≤◌, ◌≡◌, refl, ◌∙◌, ap, inl, inr, true, false, some, List, ◌∷◌,
  arith, bit_or, ◌==◌, ne→==, eq→==, pow-le,
}
use simple_rv64os.Base.Arrays.{put}
use simple_rv64os.Base.Lists.{length}
use simple_rv64os.Base.Masks.{or_disjoint}
use simple_rv64os.Buddy.{Buddy}
use simple_rv64os.Bytes.{load64, store64}
use simple_rv64os.Defs.{addr2pte, phy_start, pte_v, pte_valid, pte2va}
use simple_rv64os.Defs.Laws.{pte_valid_lem}
use simple_rv64os.Mm.{pkalloc}
use simple_rv64os.Paging.{Machine, entry, next_table, setup_pte}
use simple_rv64os.Paging.Walk.{child, pte2va-child, entry_lem}
use simple_rv64os.Paging.Space.{Owner, IsSpace}
use simple_rv64os.Paging.Space.Page.{page_at, free_count, pkalloc-OnePage}
use simple_rv64os.Paging.Space.Grow.{Grows}
use simple_rv64os.Paging.Space.Link.{owner'-new, linked-Grows}
use simple_rv64os.Paging.Space.Look.{even_or_odd}

-- The entry of a page of the allocator leads to it.
new_entry :
    (pfn : ℕ)
    → pfn < 2 ^ 25
    → (bit_or (addr2pte (phy_start + pfn * 4096)) pte_v % 2 ≡ 1)
      × (child (bit_or (addr2pte (phy_start + pfn * 4096)) pte_v) ≡ page_at pfn)
      × (bit_or (addr2pte (phy_start + pfn * 4096)) pte_v < 2 ^ 64)
unfolding child
new_entry pfn low =
    let frame : addr2pte (phy_start + pfn * 4096) ≡ (2 ^ 19 + pfn) * 2 ^ 10 = omega arith in
    let whole : bit_or (addr2pte (phy_start + pfn * 4096)) pte_v ≡ (2 ^ 19 + pfn) * 2 ^ 10 + 1 =
      ap (λ x. bit_or x 1) frame ∙ or_disjoint 10 (2 ^ 19 + pfn) 1 (omega arith) in
    (omega arith, omega arith, omega arith)

link_run :
    (m : Machine) (t i a pa : ℕ) (b' : Buddy)
    → pkalloc m.buddy ≡ some (pa, b')
    → entry t i ≡ a
    → load64 m.memory a % 2 ≡ 0
    → 0 < pte2va (bit_or (addr2pte pa) pte_v)
    → next_table m t i
      ≡ some (
        pte2va (bit_or (addr2pte pa) pte_v),
        record { memory = store64 m.memory a (bit_or (addr2pte pa) pte_v); buddy = b' },
      )
unfolding next_table setup_pte
link_run m t i a pa b' got at off pos =
    let pte = load64 m.memory (entry t i) in
    let same : pte ≡ load64 m.memory a = ap (load64 m.memory) at in
    let missing : (pte_valid pte == 0) ≡ true =
      eq→== (pte_valid pte) 0 (omega (arith, pte_valid_lem pte, same)) in
    let nonzero : (pte2va (bit_or (addr2pte pa) pte_v) == 0) ≡ false =
      ne→== (pte2va (bit_or (addr2pte pa) pte_v)) 0 (λ e. omega arith) in
    rw (next_table, missing, got, nonzero)
      (ap
        (λ x. some (
          pte2va (bit_or (addr2pte pa) pte_v),
          record { memory = store64 m.memory x (bit_or (addr2pte pa) pte_v); buddy = b' },
        ))
        at)

-- What next_table does at entry `i` of a table with `path`: a valid entry is followed, and costs no page.
abbrev pub Descends : ℕ → Machine → ℕ → Owner → ℕ → List ℕ → ℕ → Type 0
Descends d m root owner t path i =
    (q : ℕ) × (m' : Machine) × (owner' : Owner) × (next_table m t i ≡ some (q, m'))
    × Grows d m root owner m' owner'
    × (owner' q ≡ some (i ∷ path))
    × (free_count (2 ^ d) d m.buddy
        ≤ 1 - load64 m.memory (t + 8 * i) % 2 + free_count (2 ^ d) d m'.buddy)
    × (load64 m.memory (t + 8 * i) % 2 ≡ 1 → (m' ≡ m) × (q ≡ child (load64 m.memory (t + 8 * i))))

module _ (d : ℕ) (m : Machine) (root : ℕ) (owner : Owner) (space : IsSpace d m root owner)
    (small : d ≤ 25) (t : ℕ) (path : List ℕ) (i : ℕ) (at : owner t ≡ some path) (lt : i < 2 ^ 9)
    (short : length path < 2) where
  at_entry : entry t i ≡ t + 8 * i
  at_entry = entry_lem t i (space.is_table t path at) lt

  descend-present : load64 m.memory (t + 8 * i) % 2 ≡ 1 → Descends d m root owner t path i
  unfolding next_table
  descend-present on =
      let pte = load64 m.memory (entry t i) in
      let same : pte ≡ load64 m.memory (t + 8 * i) = ap (load64 m.memory) at_entry in
      let valid : (pte_valid pte == 0) ≡ false =
        ne→== (pte_valid pte) 0 (λ e. omega (arith, pte_valid_lem pte, same)) in
      (
        pte2va pte,
        m,
        owner,
        rw (next_table, valid) refl,
        record {
          space = space;
          same = λ page. refl;
          tables = λ s way mine. mine;
          data_kept = λ p within used data_page. (used, data_page, λ b lo hi. refl);
          room = omega arith;
        },
        ap owner (pte2va-child pte ∙ ap child same) ∙ space.down t path i at short lt on,
        omega arith,
        λ _. (refl, pte2va-child pte ∙ ap child same),
      )

  descend-missing :
      load64 m.memory (t + 8 * i) % 2 ≡ 0
      → 1 ≤ free_count (2 ^ d) d m.buddy
      → Descends d m root owner t path i
  descend-missing off left =
      let (pfn, b', got, _, one, count) =
        pkalloc-OnePage d m.buddy space.buddy small space.zero_used left in
      let new = bit_or (addr2pte (phy_start + pfn * 4096)) pte_v in
      let (valid, leads, fits) = new_entry pfn (omega (arith, one.within, pow-le d 25 small)) in
      let made =
        linked-Grows d m root owner space small t path i at lt short off pfn b' one new valid leads
          fits (omega arith) in
      let mine =
        owner'-new d m root owner space small t path i at lt short off pfn b' one new valid leads
          fits in
      (
        pte2va new,
        record { memory = store64 m.memory (t + 8 * i) new; buddy = b' },
        put owner (page_at pfn) (some (i ∷ path)),
        link_run m t i (t + 8 * i) (phy_start + pfn * 4096) b' got at_entry off
            (omega (arith, pte2va-child new, leads)),
        made,
        ap (put owner (page_at pfn) (some (i ∷ path))) (pte2va-child new ∙ leads) ∙ mine,
        omega arith,
        λ on. absurd (omega arith),
      )

  -- With a page left, next_table goes one level down.
  pub next_table-Descends : 1 ≤ free_count (2 ^ d) d m.buddy → Descends d m root owner t path i
  next_table-Descends left = elim (even_or_odd (load64 m.memory (t + 8 * i))) [
    | inl off ↦ descend-missing off left
    | inr on ↦ descend-present on
  ]
