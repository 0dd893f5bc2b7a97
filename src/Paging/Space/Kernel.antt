-- ===== src/Paging/Space/Kernel.antt =====
-- setup_vm_final: what the kernel's table maps.
use simple_rv64os.Base.{
  ℕ, suc, ◌+◌, ◌-◌, ◌*◌, ◌/◌, ◌^◌, ◌<◌, ◌≤◌, ◌≡◌, sym, ◌∙◌, ap, ◌&&◌, Option, some, arith, bit_or,
  ltb, leb, if◌then◌else◌,
}
use simple_rv64os.Base.Word.{sub64}
use simple_rv64os.Defs.{pgroundup, pgsize, pte_r, pte_v, pte_w, pte_x}
use simple_rv64os.Defs.Laws.{pgroundup_lem}
use simple_rv64os.Paging.{Machine, final_loop, final_range, setup_vm_final, ◌>>=◌}
use simple_rv64os.Paging.Space.{view, Owner, IsSpace}
use simple_rv64os.Paging.Space.Final.{kernel_page, kernel_frame, final_loop-MapsRange}
use simple_rv64os.Paging.Space.Grow.{DataKept, DataKept-trans}
use simple_rv64os.Paging.Space.Missing.{levels_missing-le}
use simple_rv64os.Paging.Space.Page.{page_at, free_count}
use simple_rv64os.Paging.Space.Range.{spans, spans-ap, MapsRange}

-- From the j-th page to the k-th.
final_range-MapsRange :
    (d : ℕ) (root perm j k : ℕ) (m : Machine) (owner : Owner)
    → IsSpace d m root owner
    → d ≤ 25
    → j ≤ k
    → k < 2 ^ 24
    → perm < 2 ^ 10
    → 4 + 2 * (k / 512 - j / 512) ≤ free_count (2 ^ d) d m.buddy
    → (m' : Machine) × (owner' : Owner) × (final_range m root (page_at j) (page_at k) perm
        ≡ some m')
      × MapsRange d m root owner
          (k - j)
          (kernel_page j)
          (kernel_frame j)
          (bit_or perm pte_v)
          m'
          owner'
      × (free_count (2 ^ d) d m.buddy ≤ 2 + 2 * (k / 512 - j / 512) + free_count (2 ^ d) d m'.buddy)
unfolding final_range
final_range-MapsRange d root perm j k m owner space small order low few left =
    let n = k - j in
    let end : j + n ≡ k = omega arith in
    let last : (j + n) / 512 ≡ k / 512 = ap (λ x. x / 512) end in
    let levels = levels_missing-le m.memory root (kernel_page j) in
    let (m', o', run, maps, room) =
      final_loop-MapsRange d root perm (suc (n + 1)) n j m owner space small (omega arith)
        (omega arith) few (omega (arith, last, levels)) in
    let rounds : sub64 (page_at k) (page_at j) / pgsize ≡ n = omega arith in
    (
      m',
      o',
      ap (λ x. final_loop (suc (x + 1)) m root (page_at j) (page_at k) perm) rounds
          ∙ ap (λ x. final_loop (suc (n + 1)) m root (page_at j) (page_at x) perm) (sym end)
          ∙ run,
      maps,
      omega (arith, room, last, levels),
    )

-- The kernel's view: pages 512 to 2 ^ 15 of memory at their own frames, text up to the page `t` to read and
-- execute, read-only data up to the page `r` to read, and the rest to read and write.
abbrev pub kernel_view : ℕ → ℕ → (ℕ → Option (ℕ × ℕ)) → ℕ → Option (ℕ × ℕ)
kernel_view t r old page =
    if leb (kernel_page 512) page && ltb page (kernel_page (2 ^ 15))
    then some (
      kernel_frame (page - kernel_page 0),
      if ltb page (kernel_page t)
          then bit_or (bit_or pte_v pte_r) pte_x
          else if ltb page (kernel_page r)
          then bit_or pte_v pte_r
          else bit_or (bit_or pte_w pte_r) pte_v,
    )
    else old page

three_spans :
    (t r : ℕ) (old : ℕ → Option (ℕ × ℕ)) (page : ℕ)
    → 512 ≤ t
    → t ≤ r
    → r ≤ 2 ^ 15
    → spans
        (spans
          (spans old (kernel_page 512) (t - 512) (kernel_frame 512) 11)
          (kernel_page t)
          (r - t)
          (kernel_frame t)
          3)
        (kernel_page r)
        (2 ^ 15 - r)
        (kernel_frame r)
        7
        page
      ≡ kernel_view t r old page
three_spans t r old page a b c = ground arith

-- An address rounded up to the page it ends in.
round_to : (a t : ℕ) → t < 2 ^ 24 → a ≤ page_at t → page_at t < a + 4096 → pgroundup a ≡ page_at t
round_to a t low le lt = pgroundup_lem a (omega arith) ∙ omega arith

setup_vm_final-run :
    (m m1 m2 m3 : Machine) (root etext erodata t r : ℕ)
    → pgroundup etext ≡ page_at t
    → pgroundup erodata ≡ page_at r
    → final_range m root (page_at 512) (page_at t) 11 ≡ some m1
    → final_range m1 root (page_at t) (page_at r) 3 ≡ some m2
    → final_range m2 root (page_at r) (page_at (2 ^ 15)) 7 ≡ some m3
    → setup_vm_final etext erodata root m ≡ some m3
unfolding setup_vm_final ◌>>=◌
setup_vm_final-run m m1 m2 m3 root etext erodata t r up up' run1 run2 run3 =
    let whole = λ (text data_end : ℕ). final_range m root (page_at 512) text 11 >>= λ a.
    final_range a root text data_end 3 >>= λ b. final_range b root data_end (page_at (2 ^ 15)) 7 in
    ap (λ x. whole x (pgroundup erodata)) up
    ∙ ap (whole (page_at t)) up'
    ∙ ap
        (λ x. x >>= λ a. final_range a root (page_at t) (page_at r) 3 >>= λ b.
          final_range b root (page_at r) (page_at (2 ^ 15)) 7)
        run1
    ∙ ap (λ x. x >>= λ b. final_range b root (page_at r) (page_at (2 ^ 15)) 7) run2
    ∙ run3

-- On a tree of tables with 134 pages left, where the text ends in the page before the t-th of memory and the
-- read-only data in the page before the r-th, setup_vm_final returns. The kernel's table then leads
-- pages 512 to 2 ^ 15 of memory to their own frames, with the rights of their part, and all other pages
-- where they led; the tables are a tree still, and pages in use that are no tables keep their bytes.
pub setup_vm_final-kernel_view :
    (d : ℕ) (m : Machine) (root : ℕ) (owner : Owner) (etext erodata t r : ℕ)
    → IsSpace d m root owner
    → d ≤ 25
    → 512 ≤ t
    → t ≤ r
    → r ≤ 2 ^ 15
    → etext ≤ page_at t
    → page_at t < etext + 4096
    → erodata ≤ page_at r
    → page_at r < erodata + 4096
    → 134 ≤ free_count (2 ^ d) d m.buddy
    → (m' : Machine) × (owner' : Owner) × (setup_vm_final etext erodata root m ≡ some m')
      × IsSpace d m' root owner'
      × ((page : ℕ)
          → page < 2 ^ 27
          → view m'.memory root page ≡ kernel_view t r (view m.memory root) page)
      × DataKept d m owner m' owner'
      × (free_count (2 ^ d) d m.buddy ≤ 132 + free_count (2 ^ d) d m'.buddy)
setup_vm_final-kernel_view d m root owner etext erodata t r space small a b c text text' data_end
      data_end' left =
    let (m1, o1, run1, maps1, room1) =
      final_range-MapsRange d root 11 512 t m owner space small a (omega arith) (omega arith)
        (omega arith) in
    let (m2, o2, run2, maps2, room2) =
      final_range-MapsRange d root 3 t r m1 o1 maps1.space small b (omega arith) (omega arith)
        (omega (arith, room1)) in
    let (m3, o3, run3, maps3, room3) =
      final_range-MapsRange d root 7 r (2 ^ 15) m2 o2 maps2.space small c (omega arith)
        (omega arith) (omega (arith, room1, room2)) in
    let with_text = spans (view m.memory root) (kernel_page 512) (t - 512) (kernel_frame 512) 11 in
    let with_data = spans with_text (kernel_page t) (r - t) (kernel_frame t) 3 in
    let up = round_to etext t (omega arith) text text' in
    let up' = round_to erodata r (omega arith) data_end data_end' in
    (
      m3,
      o3,
      setup_vm_final-run m m1 m2 m3 root etext erodata t r up up' run1 run2 run3,
      maps3.space,
      λ page low.
          maps3.mapped page low
          ∙ spans-ap (view m2.memory root) with_data (kernel_page r) (2 ^ 15 - r) (kernel_frame r) 7
              page
              (maps2.mapped page low
                ∙ spans-ap (view m1.memory root) with_text (kernel_page t) (r - t) (kernel_frame t)
                    3 page (maps1.mapped page low))
          ∙ three_spans t r (view m.memory root) page a b c,
      DataKept-trans d m m1 m3 owner o1 o3 maps1.data_kept
          (DataKept-trans d m1 m2 m3 o1 o2 o3 maps2.data_kept maps3.data_kept),
      omega (arith, room1, room2, room3),
    )
