-- ===== src/Fault/Anonym.antt =====
-- The pages of an anonymous area: zeros, in consecutive frames.
use simple_rv64os.Base.{
  ℕ, zero, suc, ◌+◌, ◌-◌, ◌*◌, ◌/◌, ◌%◌, ◌^◌, ◌<◌, ◌≤◌, ◌≡◌, refl, ◌∙◌, ap, false, Option, none,
  some, arith, bit_or, pow-le,
}
use simple_rv64os.Base.Word.{add64, sub64, mul64}
use simple_rv64os.Buddy.{Buddy, round_request}
use simple_rv64os.Buddy.Round.{round_request-least}
use simple_rv64os.Bytes.{memset}
use simple_rv64os.Defs.Laws.{pgrounddown_lem, pgroundup_lem}
use simple_rv64os.Mm.{alloc_pages, non_null}
use simple_rv64os.Mm.Pages.{alloc_pages-Takes, non_null-some}
use simple_rv64os.Task.{VmArea}
use simple_rv64os.Fault.Zeros.{cleared-outside, cleared-inside}
use simple_rv64os.Fault.Rights.{area_perm_lem}
use simple_rv64os.Fault.Filled.{frame_of, Filled, maps-Filled, maps-content, room-after}
use simple_rv64os.Paging.Space.Block.{in_pages, filled-IsSpace}
use simple_rv64os.Defs.{pte_v, pgsize, pgrounddown, pgroundup, pg_num, phy_start, pa2va_offset}
use simple_rv64os.Fault.{anonym_loop, alloc_annoymous_vm, area_perm}
use simple_rv64os.Paging.{Machine, map_final_pgtbl}
use simple_rv64os.Paging.Space.{Owner, IsSpace}
use simple_rv64os.Paging.Space.Page.{page_at, free_count}
use simple_rv64os.Paging.Space.Range.{MapsRange, MapsRange-at, none_mapped, first-MapsRange}
use simple_rv64os.Paging.Space.Missing.{page_of, levels_missing-le}
use simple_rv64os.Paging.Space.Refines.{map_final_pgtbl-Maps}

-- The loop over the pages of an anonymous area.
pub anonym_loop-MapsRange :
    (d : ℕ) (root va pa perm : ℕ) (n i : ℕ) (m : Machine) (owner : Owner)
    → IsSpace d m root owner
    → d ≤ 25
    → 2 * n ≤ free_count (2 ^ d) d m.buddy
    → va + 4096 * (i + n) ≤ 2 ^ 39
    → pa + 4096 * (i + n) < 2 ^ 56
    → va % 4096 ≡ 0
    → pa % 4096 ≡ 0
    → perm < 2 ^ 10
    → (m' : Machine) × (owner' : Owner) × (anonym_loop n i m root va pa perm ≡ some m')
      × MapsRange d m root owner n (va / 4096 + i) (pa / 4096 + i) (bit_or perm pte_v) m' owner'
unfolding anonym_loop
anonym_loop-MapsRange d root va pa perm zero i m owner space small left low fits start start' few =
    (m, owner, refl, none_mapped d m root owner _ _ _ space)
anonym_loop-MapsRange d root va pa perm (suc n) i m owner space small left low fits start start'
      few =
    let here : add64 va (mul64 i pgsize) ≡ va + 4096 * i = omega arith in
    let there : add64 pa (mul64 i pgsize) ≡ pa + 4096 * i = omega arith in
    let (m1, o1, run1, one) =
      map_final_pgtbl-Maps d m root owner (va + 4096 * i) (pa + 4096 * i) perm space small
        (omega arith) (omega arith) few in
    let (m2, o2, run2, more) =
      anonym_loop-MapsRange d root va pa perm n (i + 1) m1 o1 one.space small
        (omega (arith, one.room, levels_missing-le m.memory root (page_of (va + 4096 * i))))
        (omega arith) (omega arith) start start' few in
    let first : page_of (va + 4096 * i) ≡ va / 4096 + i = omega arith in
    let frame : (pa + 4096 * i) / 4096 ≡ pa / 4096 + i = omega arith in
    let next : va / 4096 + (i + 1) ≡ page_of (va + 4096 * i) + 1 = omega arith in
    let next' : pa / 4096 + (i + 1) ≡ (pa + 4096 * i) / 4096 + 1 = omega arith in
    let run1' : map_final_pgtbl m root (add64 va (mul64 i pgsize)) (add64 pa (mul64 i pgsize)) perm
        ≡ some m1 =
      ap (λ x. map_final_pgtbl m root x (add64 pa (mul64 i pgsize)) perm) here
      ∙ ap (λ x. map_final_pgtbl m root (va + 4096 * i) x perm) there
      ∙ run1 in
    (
      m2,
      o2,
      rw (anonym_loop, run1') run2,
      MapsRange-at d m root owner (suc n) m2 o2 _ _ _ _ _ _ first frame refl (
          first-MapsRange d m m1 m2 root owner o1 o2 (va + 4096 * i) (pa + 4096 * i) perm n one
            (MapsRange-at d m1 root o1 n m2 o2 _ _ _ _ _ _ next next' refl more)),
    )

-- The pages from that of the area's start to that of its last byte.
abbrev pub pages_of : VmArea → ℕ
pages_of vma = (vma.vm_end + 4095) / 4096 - vma.vm_start / 4096

alloc_annoymous_vm-run :
    (m : Machine) (vma : VmArea) (root n pfn va : ℕ) (b' : Buddy)
    → vma.vm_start ≤ vma.vm_end
    → vma.vm_end ≤ 2 ^ 39
    → n ≡ pages_of vma
    → non_null (alloc_pages m.buddy n) ≡ some (va, b')
    → va ≡ page_at pfn
    → pfn + n ≤ 2 ^ 25
    → alloc_annoymous_vm m vma root
      ≡ anonym_loop n 0
          (record { memory = memset m.memory (page_at pfn) 0 (n * 4096); buddy = b' })
          root
          (vma.vm_start / 4096 * 4096)
          (phy_start + pfn * 4096)
          (area_perm vma)
unfolding alloc_annoymous_vm
alloc_annoymous_vm-run m vma root n pfn va b' order low count got at within =
    let down : pgrounddown vma.vm_start ≡ vma.vm_start / 4096 * 4096 =
      pgrounddown_lem vma.vm_start (omega arith) in
    let up : pgroundup vma.vm_end ≡ (vma.vm_end + 4095) / 4096 * 4096 =
      pgroundup_lem vma.vm_end (omega arith) in
    let pages : pg_num (sub64 (pgroundup vma.vm_end) (pgrounddown vma.vm_start)) ≡ n =
      omega (arith, down, up) in
    let bytes : mul64 n pgsize ≡ n * 4096 = omega arith in
    let pa : sub64 (page_at pfn) pa2va_offset ≡ phy_start + pfn * 4096 = omega arith in
    let whole : ℕ → ℕ → Option Machine = λ k start. elim (non_null (alloc_pages m.buddy k)) [
      | none ↦ none
      | some (x, b) ↦
          anonym_loop k 0 (record { memory = memset m.memory x 0 (mul64 k pgsize); buddy = b }) root
            start (sub64 x pa2va_offset) (area_perm vma)
    ] in
    let mapped : ℕ → ℕ → ℕ → Option Machine = λ x size physical.
      anonym_loop n 0 (record { memory = memset m.memory x 0 size; buddy = b' }) root
        (vma.vm_start / 4096 * 4096) physical (area_perm vma) in
    let allocated : whole n (vma.vm_start / 4096 * 4096)
        ≡ mapped va (mul64 n pgsize) (sub64 va pa2va_offset) =
      rw got refl in
    ap (λ k. whole k (pgrounddown vma.vm_start)) pages
    ∙ ap (whole n) down
    ∙ allocated
    ∙ ap (λ x. mapped x (mul64 n pgsize) (sub64 x pa2va_offset)) at
    ∙ ap (λ x. mapped (page_at pfn) x (sub64 (page_at pfn) pa2va_offset)) bytes
    ∙ ap (mapped (page_at pfn) (n * 4096)) pa

-- On a tree of tables, where the root holds the rounded number of the area's pages and enough pages are
-- left for tables, alloc_annoymous_vm returns: the pages of the area lead to consecutive
-- frames that were free, with the rights of the area, and hold zeros; the tables are a tree still,
-- other pages lead where they led, and pages in use that are no tables keep their bytes.
pub alloc_annoymous_vm-Filled :
    (d : ℕ) (m : Machine) (root : ℕ) (owner : Owner) (vma : VmArea)
    → IsSpace d m root owner
    → d ≤ 25
    → vma.vm_start ≤ vma.vm_end
    → vma.vm_end ≤ 2 ^ 39
    → round_request (pages_of vma) ≤ m.buddy.bitmap 0
    → round_request (pages_of vma) + 2 * pages_of vma ≤ free_count (2 ^ d) d m.buddy
    → (pfn : ℕ) × (m' : Machine) × (owner' : Owner) × (alloc_annoymous_vm m vma root ≡ some m')
      × Filled d m root owner (pages_of vma) (vma.vm_start / 4096) pfn (area_perm vma) m' owner'
      × ((b : ℕ) → page_at pfn ≤ b → b < page_at (pfn + pages_of vma) → m'.memory b ≡ 0)
alloc_annoymous_vm-Filled d m root owner vma space small order low holds left =
    let n = pages_of vma in
    let (e, rounds, within, _) = round_request-least n (omega arith) in
    let (pfn, va, b', got, at, _, takes, _) =
      alloc_pages-Takes d e m.buddy n space.buddy small space.zero_used rounds
        (omega (arith, rounds)) in
    let size = space.buddy.pages in
    let inside : pfn + 2 ^ e ≤ 2 ^ 25 = omega (arith, takes.within, size, pow-le d 25 small) in
    let memory' = memset m.memory (page_at pfn) 0 (n * 4096) in
    let others = λ (b : ℕ) (out : in_pages pfn (2 ^ e) b ≡ false).
      cleared-outside m.memory pfn n e b (omega arith) within out in
    let perm = area_perm_lem vma in
    let (m', o', run, maps) =
      anonym_loop-MapsRange d root (vma.vm_start / 4096 * 4096) (phy_start + pfn * 4096)
        (area_perm vma) n 0 (record { memory = memory'; buddy = b' }) owner
        (filled-IsSpace d m root owner space small e pfn b' memory' takes others) small
        (omega (arith, rounds, room-after d e m root owner pfn b' space takes)) (omega arith)
        (omega arith) (omega arith) (omega arith) perm.0 in
    let first : vma.vm_start / 4096 * 4096 / 4096 + 0 ≡ vma.vm_start / 4096 = omega arith in
    let frame : (phy_start + pfn * 4096) / 4096 + 0 ≡ frame_of pfn = omega arith in
    let mid : Machine = record { memory = memory'; buddy = b' } in
    let maps' : MapsRange d mid root owner n (vma.vm_start / 4096) (frame_of pfn) (area_perm vma) m'
        o' =
      MapsRange-at d mid root owner n m' o' _ _ _ _ _ _ first frame perm.1 maps in
    (
      pfn,
      m',
      o',
      alloc_annoymous_vm-run m vma root n pfn va b' order low refl
            (non_null-some got (omega (arith, at))) at (omega arith)
          ∙ run,
      maps-Filled d m root owner space small e pfn b' memory' takes others n (vma.vm_start / 4096)
          (area_perm vma) within m' o' maps',
      λ b lo hi.
          maps-content d m root owner space small e pfn b' memory' takes others n
            (vma.vm_start / 4096) (area_perm vma) within m' o' maps' b lo hi
          ∙ cleared-inside m.memory pfn n b (omega arith) lo hi,
    )
