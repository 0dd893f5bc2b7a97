-- ===== src/Paging/Space/Final.antt =====
-- The kernel's own pages, mapped by setup_vm_final.
use simple_rv64os.Base.{
  ℕ, zero, suc, ◌+◌, ◌-◌, ◌*◌, ◌/◌, ◌^◌, ◌<◌, ◌≤◌, ◌≡◌, refl, sym, ◌∙◌, ap, subst, inl, inr, some,
  arith, bit_or, ◌==◌, lt→ltb, ge→ltb, Bool-cases,
}
use simple_rv64os.Base.Word.{add64}
use simple_rv64os.Bytes.{Bytes}
use simple_rv64os.Defs.{va2pa, pgsize, pte_v}
use simple_rv64os.Paging.{Machine, map_final_pgtbl, final_loop}
use simple_rv64os.Paging.Space.{Owner, IsSpace}
use simple_rv64os.Paging.Space.Missing.{
  page_of, levels_missing, levels_missing-le, levels_missing-group,
}
use simple_rv64os.Paging.Space.Page.{page_at, free_count}
use simple_rv64os.Paging.Space.Range.{MapsRange, MapsRange-at, none_mapped, first-MapsRange}
use simple_rv64os.Paging.Space.Refines.{map_final_pgtbl-Maps}

-- The number of the page of memory's j-th page at its kernel address, and its frame.
abbrev pub kernel_page : ℕ → ℕ
kernel_page j = 0x600_0000 + j

abbrev pub kernel_frame : ℕ → ℕ
kernel_frame j = 2 ^ 19 + j

-- Leaf tables that begin after the j-th page, up to the page n further on.
abbrev pub groups : ℕ → ℕ → ℕ
groups j n = (j + n) / 512 - j / 512

next-cost :
    (memory : Bytes) (root j n : ℕ)
    → levels_missing memory root (kernel_page j) ≡ 0
    → levels_missing memory root (kernel_page (j + 1)) + 2 * groups (j + 1) n ≤ 2 * groups j (suc n)
next-cost memory root j n ready = elim (Bool-cases ((j + 1) / 512 == j / 512)) [
  | inl same ↦
      let group =
        levels_missing-group memory root (kernel_page (j + 1)) (kernel_page j) (ground arith) in
      ground arith
  | inr next ↦ ground (arith, levels_missing-le memory root (kernel_page (j + 1)))
]

final_loop-step :
    (left : ℕ) (m : Machine) (root j top perm : ℕ) (m1 : Machine)
    → j < 2 ^ 24
    → page_at j < top
    → map_final_pgtbl m root (page_at j) (2 ^ 31 + j * 4096) perm ≡ some m1
    → final_loop (suc left) m root (page_at j) top perm
      ≡ final_loop left m1 root (page_at (j + 1)) top perm
unfolding final_loop
final_loop-step left m root j top perm m1 low more run =
    let pa : va2pa (page_at j) ≡ 2 ^ 31 + j * 4096 = omega arith in
    let next : add64 (page_at j) pgsize ≡ page_at (j + 1) = omega arith in
    let run' : map_final_pgtbl m root (page_at j) (va2pa (page_at j)) perm ≡ some m1 =
      ap (λ x. map_final_pgtbl m root (page_at j) x perm) pa ∙ run in
    rw (lt→ltb (page_at j) top more, run') (ap (λ x. final_loop left m1 root x top perm) next)

-- One of its three loops, over n pages from the j-th on: each leads to its own frame.
pub final_loop-MapsRange :
    (d : ℕ) (root perm : ℕ) (left n j : ℕ) (m : Machine) (owner : Owner)
    → IsSpace d m root owner
    → d ≤ 25
    → n < left
    → j + n < 2 ^ 24
    → perm < 2 ^ 10
    → 2 + (levels_missing m.memory root (kernel_page j) + 2 * groups j n)
      ≤ free_count (2 ^ d) d m.buddy
    → (m' : Machine) × (owner' : Owner) × (final_loop left m root (page_at j) (page_at (j + n)) perm
        ≡ some m')
      × MapsRange d m root owner n (kernel_page j) (kernel_frame j) (bit_or perm pte_v) m' owner'
      × (free_count (2 ^ d) d m.buddy
          ≤ levels_missing m.memory root (kernel_page j)
            + 2 * groups j n
            + free_count (2 ^ d) d m'.buddy)
unfolding final_loop
final_loop-MapsRange d root perm zero n j m owner space small rounds low few left =
    absurd (omega arith)
final_loop-MapsRange d root perm (suc rest) zero j m owner space small rounds low few left = (
  m,
  owner,
  rw (ge→ltb (page_at j) (page_at (j + 0)) (omega arith)) refl,
  none_mapped d m root owner _ _ _ space,
  omega arith,
)
final_loop-MapsRange d root perm (suc rest) (suc n) j m owner space small rounds low few left =
    let page : page_of (page_at j) ≡ kernel_page j = omega arith in
    let (m1, o1, run1, one) =
      map_final_pgtbl-Maps d m root owner (page_at j) (2 ^ 31 + j * 4096) perm space small
        (omega arith) (omega arith) few in
    let ready = ap (levels_missing m1.memory root) (sym page) ∙ one.ready in
    let spent =
      subst
        (λ x.
          free_count (2 ^ d) d m.buddy
          ≤ levels_missing m.memory root x + free_count (2 ^ d) d m1.buddy)
        page one.room in
    let cost = next-cost m1.memory root j n ready in
    let (m2, o2, run2, more, room) =
      final_loop-MapsRange d root perm rest n (j + 1) m1 o1 one.space small (omega arith)
        (omega arith) few (omega (arith, spent, cost)) in
    let end : page_at (j + 1 + n) ≡ page_at (j + suc n) = omega arith in
    (
      m2,
      o2,
      final_loop-step rest m root j (page_at (j + suc n)) perm m1 (omega arith) (omega arith) run1
          ∙ ap (λ x. final_loop rest m1 root (page_at (j + 1)) x perm) (sym end)
          ∙ run2,
      MapsRange-at d m root owner (suc n) m2 o2 _ _ _ _ _ _ page (omega arith) refl (
          first-MapsRange d m m1 m2 root owner o1 o2 (page_at j) (2 ^ 31 + j * 4096) perm n one
            (MapsRange-at d m1 root o1 n m2 o2 _ _ _ _ _ _ (omega arith) (omega arith) refl more)),
      omega (arith, spent, cost, room),
    )
