-- ===== src/Fault/Retry.antt =====
-- do_page_fault: what the address of the fault leads to when the access is made again.
use simple_rv64os.Base.{
  ℕ, ◌+◌, ◌-◌, ◌*◌, ◌/◌, ◌%◌, ◌^◌, ◌<◌, ◌≤◌, ◌≡◌, refl, sym, ◌∙◌, ap, subst, inl, inr, true, false,
  ◌&&◌, some, arith, ltb, leb,
}
use simple_rv64os.Base.Word.{add64, sub64}
use simple_rv64os.Buddy.{round_request}
use simple_rv64os.Buddy.Take.{is_free}
use simple_rv64os.Defs.{pgrounddown, pgsize, phy_start}
use simple_rv64os.Defs.Laws.{pgrounddown_lem}
use simple_rv64os.Fault.{alloc_elf_mem, area_perm, do_page_fault, fault_file}
use simple_rv64os.Fault.Anonym.{pages_of, alloc_annoymous_vm-Filled}
use simple_rv64os.Fault.Content.{placed}
use simple_rv64os.Fault.File.{pages_for, alloc_elf_mem-Filled}
use simple_rv64os.Bytes.{Bytes}
use simple_rv64os.Fault.Filled.{frame_of, Filled}
use simple_rv64os.Fault.Rights.{area_perm_lem}
use simple_rv64os.Paging.{Machine}
use simple_rv64os.Paging.Walk.{translate}
use simple_rv64os.Paging.Space.{view, Owner, IsSpace}
use simple_rv64os.Paging.Space.Page.{page_at, free_count, found, is_free-root}
use simple_rv64os.Paging.Space.Range.{spans}
use simple_rv64os.Paging.Space.Missing.{page_of}
use simple_rv64os.Paging.Space.Translate.{place, translate-view}
use simple_rv64os.Perm.{is_annoy}
use simple_rv64os.Run.{done}
use simple_rv64os.Task.{Task, VmArea, covers, find_vma}
use simple_rv64os.Task.Find.{find_vma-FirstCover}

-- An address of a page that was filled leads to its place in the new pages.
Filled-translate :
    (d : ℕ) (m : Machine) (root : ℕ) (owner : Owner) (n first pfn rights : ℕ) (m' : Machine)
    (owner' : Owner) (va : ℕ)
    → Filled d m root owner n first pfn rights m' owner'
    → first ≤ va / 4096
    → va / 4096 < first + n
    → va < 2 ^ 39
    → translate m'.memory root va
      ≡ some (phy_start + (pfn + (va / 4096 - first)) * 4096 + va % 4096)
Filled-translate d m root owner n first pfn rights m' owner' va f lo hi low =
    let page : page_of va ≡ va / 4096 = omega arith in
    let inside : (leb first (va / 4096) && ltb (va / 4096) (first + n)) ≡ true = ground arith in
    let here : view m'.memory root (page_of va)
        ≡ some (frame_of pfn + (va / 4096 - first), rights) =
      f.mapped (page_of va) (omega arith)
      ∙ ap (spans (view m.memory root) first n (frame_of pfn) rights) page
      ∙ rw inside refl in
    translate-view m'.memory root va ∙ ap (λ x. place x (va % 4096)) here ∙ ap some (omega arith)

find_vma-covers :
    (task : Task) (addr i : ℕ) → find_vma task addr ≡ some i → covers (task.vmas i) addr ≡ true
find_vma-covers task addr i e = elim (find_vma-FirstCover task addr) [
  | inl (j, e', f) ↦
      let same : j ≡ i = cc (sym e' ∙ e) in
      subst (λ x. covers (task.vmas x) addr ≡ true) same f.cover
  | inr (e', _) ↦ absurd (cc (sym e' ∙ e))
]

-- On a tree of tables at the task's page table, a fault at an address of an anonymous area, where the
-- root holds the area's pages and enough are left for tables: do_page_fault returns, the
-- pages of the area lead to consecutive frames that were free, with the rights of the area, and hold
-- zeros; the address now translates to its place in them. The tables are a tree still, other pages
-- lead where they led, and pages in use that are no tables keep their bytes.
pub do_page_fault-anonymous :
    (d : ℕ) (m : Machine) (owner : Owner) (task : Task) (uapp_start addr i : ℕ)
    → find_vma task addr ≡ some i
    → is_annoy (task.vmas i).vm_flags ≡ true
    → IsSpace d m task.page_table owner
    → d ≤ 25
    → (task.vmas i).vm_end ≤ 2 ^ 39
    → round_request (pages_of (task.vmas i)) ≤ m.buddy.bitmap 0
    → round_request (pages_of (task.vmas i)) + 2 * pages_of (task.vmas i)
      ≤ free_count (2 ^ d) d m.buddy
    → (pfn : ℕ) × (m' : Machine) × (owner' : Owner) × (do_page_fault uapp_start m task addr
        ≡ done m')
      × Filled d m task.page_table owner
          (pages_of (task.vmas i))
          ((task.vmas i).vm_start / 4096)
          pfn
          (area_perm (task.vmas i))
          m'
          owner'
      × ((b : ℕ) → page_at pfn ≤ b → b < page_at (pfn + pages_of (task.vmas i)) → m'.memory b ≡ 0)
      × (translate m'.memory task.page_table addr
          ≡ some (
              phy_start
              + (pfn + (addr / 4096 - (task.vmas i).vm_start / 4096)) * 4096
              + addr % 4096))
unfolding do_page_fault
do_page_fault-anonymous d m owner task uapp_start addr i area anonymous space small low holds left =
    let vma = task.vmas i in
    let cover = find_vma-covers task addr i area in
    let above : vma.vm_start ≤ addr = ground arith in
    let below : addr < vma.vm_end = ground arith in
    let (pfn, m', o', run, f, zeros) =
      alloc_annoymous_vm-Filled d m task.page_table owner vma space small (omega arith) low holds
        left in
    (
      pfn,
      m',
      o',
      rw (do_page_fault, area, anonymous, run) refl,
      f,
      zeros,
      Filled-translate d m task.page_table owner (pages_of vma) (vma.vm_start / 4096) pfn
          (area_perm vma) m' o' addr f (omega arith) (omega arith) (omega arith),
    )

-- The start of the page of the file for an address of an area.
abbrev pub file_page : ℕ → VmArea → ℕ → ℕ
file_page uapp_start vma addr =
    (uapp_start + vma.vm_content_offset_in_file + (addr - vma.vm_start)) / 4096 * 4096

fault_file-run :
    (uapp_start : ℕ) (m : Machine) (task : Task) (vma : VmArea) (addr : ℕ)
    → vma.vm_start ≤ addr
    → addr < 2 ^ 39
    → uapp_start + vma.vm_content_offset_in_file + addr < 2 ^ 64
    → fault_file uapp_start m task vma addr
      ≡ alloc_elf_mem m
          (file_page uapp_start vma addr)
          4096
          4096
          (addr / 4096 * 4096)
          task.page_table
          (area_perm vma)
unfolding fault_file
fault_file-run uapp_start m task vma addr above low fits =
    let at : add64 (add64 uapp_start vma.vm_content_offset_in_file) (sub64 addr vma.vm_start)
        ≡ uapp_start + vma.vm_content_offset_in_file + (addr - vma.vm_start) =
      omega arith in
    let page = ap pgrounddown at ∙ pgrounddown_lem _ (omega arith) in
    let to : pgrounddown addr ≡ addr / 4096 * 4096 = pgrounddown_lem addr (omega arith) in
    ap (λ x. alloc_elf_mem m x pgsize pgsize (pgrounddown addr) task.page_table (area_perm vma))
      page
    ∙ ap
        (λ x.
          alloc_elf_mem m (file_page uapp_start vma addr) pgsize pgsize x task.page_table
            (area_perm vma))
        to

one_page : round_request 1 ≡ 1
unfolding round_request
one_page = refl

-- A whole page of the file from the start of a page on.
whole_page :
    (memory : Bytes) (at w file k : ℕ)
    → w % 4096 ≡ 0
    → k < 4096
    → placed memory (at + w % 4096) file 4096 (at + k) ≡ memory (file + k) % 2 ^ 8
whole_page memory at w file k start small =
    let dst : at + w % 4096 ≡ at = omega arith in
    let inside : (leb at (at + k) && ltb (at + k) (at + 4096)) ≡ true = ground arith in
    let offset : file + (at + k - at) ≡ file + k = omega arith in
    ap (λ x. placed memory x file 4096 (at + k)) dst ∙ rw inside (ap (λ x. memory x % 2 ^ 8) offset)

-- On a tree of tables at the task's page table with three pages left, a fault at an address of an area of
-- the program's file, which lies below every free page: do_page_fault returns, and the
-- page of the address leads to a frame that was free, with the rights of the area, that holds
-- the 4096 bytes from the start of the page of the file in which the area's byte for the
-- address lies; the address now translates to its place in it. The tables are a tree still, other
-- pages lead where they led, and pages in use that are no tables keep their bytes.
pub do_page_fault-file :
    (d : ℕ) (m : Machine) (owner : Owner) (task : Task) (uapp_start addr i : ℕ)
    → find_vma task addr ≡ some i
    → is_annoy (task.vmas i).vm_flags ≡ false
    → IsSpace d m task.page_table owner
    → d ≤ 25
    → addr < 2 ^ 39
    → uapp_start + (task.vmas i).vm_content_offset_in_file + addr < 2 ^ 64
    → 3 ≤ free_count (2 ^ d) d m.buddy
    → ((p : ℕ)
        → p < 2 ^ d
        → is_free d m.buddy p ≡ true
        → file_page uapp_start (task.vmas i) addr + 4096 ≤ page_at p)
    → (pfn : ℕ) × (m' : Machine) × (owner' : Owner) × (do_page_fault uapp_start m task addr
        ≡ done m')
      × Filled d m task.page_table owner 1 (addr / 4096) pfn (area_perm (task.vmas i)) m' owner'
      × ((k : ℕ)
          → k < 4096
          → m'.memory (page_at pfn + k)
            ≡ m.memory (file_page uapp_start (task.vmas i) addr + k) % 2 ^ 8)
      × (translate m'.memory task.page_table addr ≡ some (phy_start + pfn * 4096 + addr % 4096))
unfolding do_page_fault
do_page_fault-file d m owner task uapp_start addr i area plain space small low fits left below =
    let vma = task.vmas i in
    let cover = find_vma-covers task addr i area in
    let above : vma.vm_start ≤ addr = ground arith in
    let w = addr / 4096 * 4096 in
    let single : pages_for w 4096 ≡ 1 = omega arith in
    let rounds : round_request (pages_for w 4096) ≡ 1 = ap round_request single ∙ one_page in
    let (p, lt, free) = found (2 ^ d) d m.buddy (omega arith) in
    let holds = is_free-root d m.buddy p free in
    let (pfn, m', o', run, f, bytes) =
      alloc_elf_mem-Filled d m task.page_table owner (file_page uapp_start vma addr) 4096 4096 w
        (area_perm vma) space small (omega arith) (omega arith) (area_perm_lem vma).0
        (omega (arith, rounds)) (omega (arith, rounds, single)) below in
    let start : w / 4096 ≡ addr / 4096 = omega arith in
    let f' : Filled d m task.page_table owner 1 (addr / 4096) pfn (area_perm vma) m' o' =
      subst (λ x. Filled d m task.page_table owner x (addr / 4096) pfn (area_perm vma) m' o') single
        (subst
          (λ x. Filled d m task.page_table owner (pages_for w 4096) x pfn (area_perm vma) m' o')
          start
          (subst (λ x. Filled d m task.page_table owner (pages_for w 4096) (w / 4096) pfn x m' o')
            (area_perm_lem vma).1 f)) in
    (
      pfn,
      m',
      o',
      rw (do_page_fault, area, plain, fault_file-run uapp_start m task vma addr above low fits, run)
          refl,
      f',
      λ k small_k.
          bytes (page_at pfn + k) (omega arith) (omega arith)
          ∙ whole_page m.memory (page_at pfn) w (file_page uapp_start vma addr) k (omega arith)
              small_k,
      Filled-translate d m task.page_table owner 1 (addr / 4096) pfn (area_perm vma) m' o' addr f'
            (omega arith) (omega arith) low
          ∙ ap some (omega arith),
    )
