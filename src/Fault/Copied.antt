-- ===== src/Fault/Copied.antt =====
-- A page of the parent, copied for the child at a fork.
use simple_rv64os.Base.{
  ℕ, ◌+◌, ◌-◌, ◌*◌, ◌%◌, ◌^◌, ◌<◌, ◌≤◌, ◌≡◌, ◌≢◌, refl, sym, ◌∙◌, ap, ◌⊎◌, inl, inr, true, false,
  Option, some, arith, ltb, leb, ◌&&◌, if◌then◌else◌, Bool-cases, ltb→lt, pow-le,
}
use simple_rv64os.Base.Word.{sub64}
use simple_rv64os.Buddy.{Buddy}
use simple_rv64os.Buddy.Take.{is_free}
use simple_rv64os.Bytes.{Bytes, pgcpy}
use simple_rv64os.Bytes.Copy.{memcpy_lem}
use simple_rv64os.Defs.{phy_start, pa2va, pa2va_offset}
use simple_rv64os.Fault.{area_perm, copy_page, copy_user_page}
use simple_rv64os.Fault.Filled.{frame_of, Filled, maps-Filled, maps-content, room-after}
use simple_rv64os.Fault.Rights.{area_perm_lem}
use simple_rv64os.Fault.Walk.{IsData}
use simple_rv64os.Mm.{kalloc, non_null}
use simple_rv64os.Mm.Pages.{non_null-some}
use simple_rv64os.Paging.{Machine, map_final_pgtbl}
use simple_rv64os.Paging.Walk.{translate}
use simple_rv64os.Paging.Space.{view, Owner, IsSpace}
use simple_rv64os.Paging.Space.Block.{in_pages, filled-IsSpace}
use simple_rv64os.Paging.Space.Missing.{page_of, levels_missing-le}
use simple_rv64os.Paging.Space.Page.{page_at, free_count, kalloc-Takes}
use simple_rv64os.Paging.Space.Range.{MapsRange-at, none_mapped, first-MapsRange}
use simple_rv64os.Paging.Space.Refines.{map_final_pgtbl-Maps}
use simple_rv64os.Paging.Space.Translate.{place, translate-view}
use simple_rv64os.Task.{VmArea}

copy_page-run :
    (m : Machine) (vma : VmArea) (parent child va pa real_va src phys : ℕ) (b' : Buddy)
    (m' : Machine)
    → non_null (kalloc m.buddy) ≡ some (real_va, b')
    → translate m.memory parent va ≡ some pa
    → pa2va pa ≡ src
    → sub64 real_va pa2va_offset ≡ phys
    → map_final_pgtbl
        (record { memory = pgcpy m.memory real_va src; buddy = b' })
        child
        va
        phys
        (area_perm vma)
      ≡ some m'
    → copy_page m vma parent child va ≡ some m'
unfolding copy_page copy_user_page
copy_page-run m vma parent child va pa real_va src phys b' m' got found from to run =
    let mapped : ℕ → ℕ → Option Machine = λ x y.
      map_final_pgtbl (record { memory = pgcpy m.memory real_va x; buddy = b' }) child va y
        (area_perm vma) in
    let opened : copy_page m vma parent child va ≡ mapped (pa2va pa) (sub64 real_va pa2va_offset) =
      rw (copy_page, got, found) refl in
    opened ∙ ap (λ x. mapped x (sub64 real_va pa2va_offset)) from ∙ ap (mapped src) to ∙ run

-- The copy of one page onto another.
module _ (memory : Bytes) (p q : ℕ) (low : p < 2 ^ 25) (low' : q < 2 ^ 25) (ne : p ≢ q) where
  apart : (page_at p ≤ page_at q) ⊎ (page_at q + 4096 ≤ page_at p)
  apart = elim (Bool-cases (ltb p q)) [
    | inl less ↦ inl (before (ltb→lt p q less))
    | inr more ↦ inr (ground arith)
  ]
    where
      before : p < q → page_at p ≤ page_at q
      before less = omega arith

  copied_page :
      (b : ℕ)
      → pgcpy memory (page_at p) (page_at q) b ≡ (
          if leb (page_at p) b && ltb b (page_at p + 4096)
          then memory (page_at q + (b - page_at p))
          else memory b)
  unfolding pgcpy
  copied_page b =
      memcpy_lem memory (page_at p) (page_at q) 4096 b (omega arith) (omega arith) (omega arith)
        apart

  pub pgcpy-outside :
      (b : ℕ) → in_pages p (2 ^ 0) b ≡ false → pgcpy memory (page_at p) (page_at q) b ≡ memory b
  pgcpy-outside b out =
      let away : (leb (page_at p) b && ltb b (page_at p + 4096)) ≡ false = ground arith in
      copied_page b ∙ rw away refl

  pub pgcpy-inside :
      (i : ℕ)
      → i < 4096
      → pgcpy memory (page_at p) (page_at q) (page_at p + i) ≡ memory (page_at q + i)
  pgcpy-inside i lt =
      let within : (leb (page_at p) (page_at p + i) && ltb (page_at p + i) (page_at p + 4096))
          ≡ true =
        ground arith in
      let offset : page_at p + i - page_at p ≡ i = omega arith in
      copied_page (page_at p + i) ∙ rw (within, offset) refl

-- On a tree of tables with three pages left, where the parent's walk leads the page of va to a frame in
-- use that is no table, copy_page returns: the child's page leads to a frame that was free, with the
-- rights of the area, and the frame holds the bytes of the parent's.
pub copy_page-Filled :
    (d : ℕ) (m : Machine) (child : ℕ) (owner : Owner) (vma : VmArea) (parent va frame rights : ℕ)
    → IsSpace d m child owner
    → d ≤ 25
    → 3 ≤ free_count (2 ^ d) d m.buddy
    → va % 4096 ≡ 0
    → view m.memory parent (page_of va) ≡ some (frame, rights)
    → IsData d m owner (pa2va (frame * 4096))
    → (pfn : ℕ) × (m' : Machine) × (owner' : Owner) × (copy_page m vma parent child va ≡ some m')
      × Filled d m child owner 1 (page_of va) pfn (area_perm vma) m' owner'
      × ((i : ℕ) → i < 4096 → m'.memory (page_at pfn + i) ≡ m.memory (pa2va (frame * 4096) + i))
      × (free_count (2 ^ d) d m.buddy ≤ 3 + free_count (2 ^ d) d m'.buddy)
copy_page-Filled d m child owner vma parent va frame rights space small left start leads from =
    let (pfn, b', got, takes) =
      kalloc-Takes d m.buddy space.buddy small space.zero_used (omega arith) in
    let q = from.page in
    let size = space.buddy.pages in
    let bound = pow-le d 25 small in
    let low : pfn < 2 ^ 25 = omega (arith, takes.within, size, bound) in
    let low' : q < 2 ^ 25 = omega (arith, from.within, bound) in
    let free = takes.was_free pfn (omega (arith, takes.within, size)) (ground arith) in
    let ne : pfn ≢ q = λ e. absurd (cc (sym from.used ∙ ap (is_free d m.buddy) (sym e) ∙ free)) in
    let memory' = pgcpy m.memory (page_at pfn) (page_at q) in
    let others = pgcpy-outside m.memory pfn q low low' ne in
    let mid : Machine = record { memory = memory'; buddy = b' } in
    let perm = area_perm_lem vma in
    let space' = filled-IsSpace d m child owner space small 0 pfn b' memory' takes others in
    let after = room-after d 0 m child owner pfn b' space takes in
    let (m', o', run, one) =
      map_final_pgtbl-Maps d mid child owner va (phy_start + pfn * 4096) (area_perm vma) space'
        small (omega (arith, after)) (omega arith) perm.0 in
    let maps =
      MapsRange-at d mid child owner 1 m' o' _ (page_of va) _ (frame_of pfn) _ (area_perm vma) refl
        (omega arith) perm.1
        (first-MapsRange d mid m' m' child owner o' o' va (phy_start + pfn * 4096) (area_perm vma) 0
          one (none_mapped d m' child o' _ _ _ one.space)) in
    let found : translate m.memory parent va ≡ some (frame * 4096 + va % 4096) =
      translate-view m.memory parent va ∙ ap (λ x. place x (va % 4096)) leads in
    let source : pa2va (frame * 4096 + va % 4096) ≡ page_at q =
      ap (λ x. pa2va (frame * 4096 + x)) start ∙ ap pa2va (omega arith) ∙ from.start in
    (
      pfn,
      m',
      o',
      copy_page-run m vma parent child va (frame * 4096 + va % 4096) (page_at pfn) (page_at q)
          (phy_start + pfn * 4096) b' m' (non_null-some got (omega arith)) found source
          (omega arith) run,
      maps-Filled d m child owner space small 0 pfn b' memory' takes others 1 (page_of va)
          (area_perm vma) (omega arith) m' o' maps,
      λ i lt.
          maps-content d m child owner space small 0 pfn b' memory' takes others 1 (page_of va)
            (area_perm vma) (omega arith) m' o' maps (page_at pfn + i) (omega arith) (omega arith)
          ∙ pgcpy-inside m.memory pfn q low low' ne i lt
          ∙ ap (λ x. m.memory (x + i)) (sym from.start),
      omega (arith, after, one.room, levels_missing-le mid.memory child (page_of va)),
    )
