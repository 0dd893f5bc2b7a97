-- ===== src/Fault/Area.antt =====
-- copy_vma_mem: the area of the parent, page by page.
mod Examples
use simple_rv64os.Base.{
  ℕ, zero, suc, ◌+◌, ◌-◌, ◌*◌, ◌/◌, ◌%◌, ◌^◌, ◌<◌, ◌≤◌, ◌≡◌, refl, sym, ◌∙◌, ap, subst, inl, inr,
  true, false, Option, none, some, arith, ltb, if◌then◌else◌, lt→ltb, ge→ltb, pow-le,
}
use simple_rv64os.Base.Word.{add64, sub64}
use simple_rv64os.Defs.{pgsize, pgrounddown}
use simple_rv64os.Defs.Laws.{pgrounddown_lem}
use simple_rv64os.Fault.{area_perm, copy_page, copy_loop, copy_vma_mem}
use simple_rv64os.Fault.Anonym.{pages_of}
use simple_rv64os.Fault.Child.{IsCopied, none-IsCopied, skipped-IsCopied, Filled-IsCopied}
use simple_rv64os.Fault.Filled.{Filled}
use simple_rv64os.Fault.Child.First.{first-IsCopied}
use simple_rv64os.Fault.Copied.{copy_page-Filled}
use simple_rv64os.Fault.Walk.{IsReadable, IsReadable-next, LiesOn-top}
use simple_rv64os.Paging.{Machine, is_va_mapped}
use simple_rv64os.Paging.Map.{is_mapped, is_va_mapped-translate}
use simple_rv64os.Paging.Walk.{IsTable}
use simple_rv64os.Paging.Space.{view, Owner, IsSpace}
use simple_rv64os.Paging.Space.Apart.{page_at-IsTable}
use simple_rv64os.Paging.Space.Missing.{page_of}
use simple_rv64os.Paging.Space.Page.{free_count}
use simple_rv64os.Paging.Space.Translate.{place, translate-view}
use simple_rv64os.Sched.Slots.{Option-cases}
use simple_rv64os.Task.{VmArea}

copy_loop-skipped :
    (left : ℕ) (m : Machine) (vma : VmArea) (parent child va : ℕ)
    → va < vma.vm_end
    → is_va_mapped m.memory va parent ≡ false
    → copy_loop (suc left) m vma parent child va
      ≡ copy_loop left m vma parent child (add64 va pgsize)
unfolding copy_loop
copy_loop-skipped left m vma parent child va more lacks = rw (lt→ltb va vma.vm_end more, lacks) refl

copy_loop-copied :
    (left : ℕ) (m : Machine) (vma : VmArea) (parent child va : ℕ) (m' : Machine)
    → va < vma.vm_end
    → is_va_mapped m.memory va parent ≡ true
    → copy_page m vma parent child va ≡ some m'
    → copy_loop (suc left) m vma parent child va
      ≡ copy_loop left m' vma parent child (add64 va pgsize)
unfolding copy_loop
copy_loop-copied left m vma parent child va m' more has run =
    rw (lt→ltb va vma.vm_end more, has, run) refl

copy_loop-ended :
    (left : ℕ) (m : Machine) (vma : VmArea) (parent child va : ℕ)
    → vma.vm_end ≤ va
    → copy_loop (suc left) m vma parent child va ≡ some m
unfolding copy_loop
copy_loop-ended left m vma parent child va over = rw (ge→ltb va vma.vm_end over) refl

-- One round.
copy_round :
    (d : ℕ) (m : Machine) (owner : Owner) (vma : VmArea) (parent child va n : ℕ)
    → IsSpace d m child owner
    → d ≤ 25
    → 3 ≤ free_count (2 ^ d) d m.buddy
    → va % 4096 ≡ 0
    → va < 2 ^ 39
    → va < vma.vm_end
    → IsReadable d m owner parent (suc n) (va / 4096)
    → (m' : Machine) × (owner' : Owner) × ((left : ℕ)
        → copy_loop (suc left) m vma parent child va
          ≡ copy_loop left m' vma parent child (add64 va pgsize))
      × IsCopied d m owner parent child 1 (va / 4096) (area_perm vma) m' owner'
unfolding is_mapped
copy_round d m owner vma parent child va n space small left start low more readable =
    let first = va / 4096 in
    let top =
      LiesOn-top d m owner parent first (readable.walks first (omega arith) (omega arith)) in
    let table : IsTable parent =
      subst IsTable (sym top.start)
        (page_at-IsTable top.page (omega (arith, top.within, pow-le d 25 small))) in
    let page : page_of va ≡ first = omega arith in
    let says : is_va_mapped m.memory va parent
        ≡ is_mapped (place (view m.memory parent first) (va % 4096)) =
      is_va_mapped-translate m.memory va parent table
      ∙ ap is_mapped (translate-view m.memory parent va)
      ∙ ap (λ x. is_mapped (place (view m.memory parent x) (va % 4096))) page in
    elim (Option-cases (view m.memory parent first)) [
      | inl lacks ↦
          let no = says ∙ ap (λ x. is_mapped (place x (va % 4096))) lacks in
          (
            m,
            owner,
            λ left. copy_loop-skipped left m vma parent child va more no,
            skipped-IsCopied d m owner parent child first (area_perm vma) space lacks,
          )
      | inr ((frame, rights), leads) ↦
          let yes = says ∙ ap (λ x. is_mapped (place x (va % 4096))) leads in
          let (pfn, m', o', run, filled, bytes, room) =
            copy_page-Filled d m child owner vma parent va frame rights space small left start
              (ap (view m.memory parent) page ∙ leads)
              (readable.frames first frame rights (omega arith) (omega arith) leads) in
          let filled' =
            subst (λ x. Filled d m child owner 1 x pfn (area_perm vma) m' o') page filled in
          (
            m',
            o',
            λ left. copy_loop-copied left m vma parent child va m' more yes run,
            Filled-IsCopied d m owner parent child first (area_perm vma) pfn frame rights m' o'
                (omega arith) leads filled' bytes room,
          )
    ]

copy_loop-IsCopied :
    (d : ℕ) (vma : VmArea) (parent child : ℕ) (left n va : ℕ) (m : Machine) (owner : Owner)
    → IsSpace d m child owner
    → d ≤ 25
    → 3 * n ≤ free_count (2 ^ d) d m.buddy
    → n < left
    → va % 4096 ≡ 0
    → va + 4096 * n ≤ 2 ^ 39
    → vma.vm_end ≤ va + 4096 * n
    → va + 4096 * n < vma.vm_end + 4096
    → IsReadable d m owner parent n (va / 4096)
    → (m' : Machine) × (owner' : Owner) × (copy_loop left m vma parent child va ≡ some m')
      × IsCopied d m owner parent child n (va / 4096) (area_perm vma) m' owner'
copy_loop-IsCopied d vma parent child zero n va m owner space small few rounds start low end end'
      readable =
    absurd (omega arith)
copy_loop-IsCopied d vma parent child (suc left) zero va m owner space small few rounds start low
      end end' readable =
    (
      m,
      owner,
      copy_loop-ended left m vma parent child va (omega arith),
      none-IsCopied d m owner parent child (va / 4096) (area_perm vma) space,
    )
copy_loop-IsCopied d vma parent child (suc left) (suc n) va m owner space small few rounds start low
      end end' readable =
    let (m1, o1, run, one) =
      copy_round d m owner vma parent child va n space small (omega arith) start (omega arith)
        (omega arith) readable in
    let next : (va + 4096) / 4096 ≡ va / 4096 + 1 = omega arith in
    let behind = IsReadable-next d m m1 owner o1 parent n (va / 4096) one.data_kept readable in
    let (m2, o2, run', more) =
      copy_loop-IsCopied d vma parent child left n (va + 4096) m1 o1 one.space small
        (omega (arith, one.room)) (omega arith) (omega arith) (omega arith) (omega arith)
        (omega arith) (subst (IsReadable d m1 o1 parent n) (sym next) behind) in
    let more' = subst (λ x. IsCopied d m1 o1 parent child n x (area_perm vma) m2 o2) next more in
    let step : add64 va pgsize ≡ va + 4096 = omega arith in
    (
      m2,
      o2,
      run left ∙ ap (copy_loop left m1 vma parent child) step ∙ run',
      first-IsCopied d m m1 m2 owner o1 o2 parent child n (va / 4096) (area_perm vma) (omega arith)
          readable one more',
    )

-- On a tree of tables at the child's root with three pages left for each of the area's, where the
-- parent's tables on the way to these pages and the frames behind them are pages in use that are
-- no tables of that tree: copy_vma_mem returns. Each page of the area that the parent has leads,
-- for the child, to a frame with the rights of the area and the bytes of the parent's; the frame
-- was no page of data before, and no two of these pages have the same. The child's other pages
-- lead where they led, its tables are a tree still, and pages in use that are no tables keep
-- their bytes.
pub copy_vma_mem-IsCopied :
    (d : ℕ) (m : Machine) (owner : Owner) (vma : VmArea) (parent child : ℕ)
    → IsSpace d m child owner
    → d ≤ 25
    → vma.vm_start ≤ vma.vm_end
    → vma.vm_end + 4096 ≤ 2 ^ 39
    → 3 * pages_of vma ≤ free_count (2 ^ d) d m.buddy
    → IsReadable d m owner parent (pages_of vma) (vma.vm_start / 4096)
    → (m' : Machine) × (owner' : Owner) × (copy_vma_mem m vma parent child ≡ some m')
      × IsCopied d m owner parent child
          (pages_of vma)
          (vma.vm_start / 4096)
          (area_perm vma)
          m'
          owner'
unfolding copy_vma_mem
copy_vma_mem-IsCopied d m owner vma parent child space small order low few readable =
    let n = pages_of vma in
    let va = vma.vm_start / 4096 * 4096 in
    let down : pgrounddown vma.vm_start ≡ va = pgrounddown_lem vma.vm_start (omega arith) in
    let first : va / 4096 ≡ vma.vm_start / 4096 = omega arith in
    let rounds : n < sub64 vma.vm_end va / pgsize + 2 = omega arith in
    let (m', o', run, copied) =
      copy_loop-IsCopied d vma parent child (sub64 vma.vm_end va / pgsize + 2) n va m owner space
        small few rounds (omega arith) (omega arith) (omega arith) (omega arith)
        (subst (IsReadable d m owner parent n) (sym first) readable) in
    (
      m',
      o',
      ap (λ x. copy_loop (sub64 vma.vm_end x / pgsize + 2) m vma parent child x) down ∙ run,
      subst (λ x. IsCopied d m owner parent child n x (area_perm vma) m' o') first copied,
    )
