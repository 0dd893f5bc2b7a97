-- ===== src/Paging/Space/Range.antt =====
-- Consecutive pages mapped to consecutive frames, and the loop of create_mapping and alloc_elf_mem.
use simple_rv64os.Base.{
  ℕ, zero, suc, ◌+◌, ◌-◌, ◌*◌, ◌/◌, ◌^◌, ◌<◌, ◌≤◌, ◌≡◌, refl, ◌∙◌, ap, subst, ◌&&◌, Option, some,
  arith, bit_or, ltb, leb, if◌then◌else◌, lt→ltb, ge→ltb,
}
use simple_rv64os.Base.Arrays.{put}
use simple_rv64os.Base.Word.{add64}
use simple_rv64os.Defs.{pte_v, pgsize}
use simple_rv64os.Paging.{Machine, map_final_pgtbl, map_loop}
use simple_rv64os.Paging.Space.{view, Owner, IsSpace}
use simple_rv64os.Paging.Space.Page.{free_count}
use simple_rv64os.Paging.Space.Grow.{DataKept, DataKept-trans}
use simple_rv64os.Paging.Space.Missing.{page_of, levels_missing-le}
use simple_rv64os.Paging.Space.Refines.{Maps, map_final_pgtbl-Maps}

-- The map with n pages from `first` on led to the frames from `frame` on.
abbrev pub spans : (ℕ → Option (ℕ × ℕ)) → ℕ → ℕ → ℕ → ℕ → ℕ → Option (ℕ × ℕ)
spans old first n frame rights page =
    if leb first page && ltb page (first + n)
    then some (frame + (page - first), rights)
    else old page

pub record MapsRange (d : ℕ) (m : Machine) (root : ℕ) (owner : Owner) (n first frame rights : ℕ)
    (m' : Machine) (owner' : Owner) : Type 0 where
  pub space : IsSpace d m' root owner'
  pub mapped :
      (page : ℕ)
      → page < 2 ^ 27
      → view m'.memory root page ≡ spans (view m.memory root) first n frame rights page
  pub data_kept : DataKept d m owner m' owner'
  pub room : free_count (2 ^ d) d m.buddy ≤ 2 * n + free_count (2 ^ d) d m'.buddy

pub none_mapped :
    (d : ℕ) (m : Machine) (root : ℕ) (owner : Owner) (first frame rights : ℕ)
    → IsSpace d m root owner
    → MapsRange d m root owner 0 first frame rights m owner
none_mapped d m root owner first frame rights space = record {
  space = space;
  mapped = λ page low. ground arith;
  data_kept = λ p within used data_page. (used, data_page, λ b lo hi. refl);
  room = omega arith;
}

spans-put :
    (old : ℕ → Option (ℕ × ℕ)) (first n frame rights page : ℕ)
    → spans (put old first (some (frame, rights))) (first + 1) n (frame + 1) rights page
      ≡ spans old first (suc n) frame rights page
unfolding put
spans-put old first n frame rights page = ground arith

pub spans-ap :
    (old old' : ℕ → Option (ℕ × ℕ)) (first n frame rights page : ℕ)
    → old page ≡ old' page
    → spans old first n frame rights page ≡ spans old' first n frame rights page
spans-ap old old' first n frame rights page e =
    ap
      (λ x.
        if leb first page && ltb page (first + n) then some (frame + (page - first), rights) else x)
      e

-- The same range, written otherwise.
pub MapsRange-at :
    (d : ℕ) (m : Machine) (root : ℕ) (owner : Owner) (n : ℕ) (m' : Machine) (owner' : Owner)
    (first first' frame frame' rights rights' : ℕ)
    → first ≡ first'
    → frame ≡ frame'
    → rights ≡ rights'
    → MapsRange d m root owner n first frame rights m' owner'
    → MapsRange d m root owner n first' frame' rights' m' owner'
MapsRange-at d m root owner n m' owner' first first' frame frame' rights rights' e e' e'' maps =
    subst (λ x. MapsRange d m root owner n x frame' rights' m' owner') e
      (subst (λ x. MapsRange d m root owner n first x rights' m' owner') e'
        (subst (λ x. MapsRange d m root owner n first frame x m' owner') e'' maps))

-- One page, and then the n that follow.
pub first-MapsRange :
    (d : ℕ) (m m1 m2 : Machine) (root : ℕ) (o o1 o2 : Owner) (va pa perm n : ℕ)
    → Maps d m root o va pa perm m1 o1
    → MapsRange d m1 root o1 n (page_of va + 1) (pa / 4096 + 1) (bit_or perm pte_v) m2 o2
    → MapsRange d m root o (suc n) (page_of va) (pa / 4096) (bit_or perm pte_v) m2 o2
first-MapsRange d m m1 m2 root o o1 o2 va pa perm n one more = record {
  space = more.space;
  mapped = λ page low.
      more.mapped page low
      ∙ spans-ap (view m1.memory root)
          (put (view m.memory root) (page_of va) (some (pa / 4096, bit_or perm pte_v)))
          (page_of va + 1) n (pa / 4096 + 1) (bit_or perm pte_v) page (one.mapped page low)
      ∙ spans-put (view m.memory root) (page_of va) n (pa / 4096) (bit_or perm pte_v) page;
  data_kept = DataKept-trans d m m1 m2 o o1 o2 one.data_kept more.data_kept;
  room = omega (arith, one.room, more.room, levels_missing-le m.memory root (page_of va));
}

map_loop-step :
    (left : ℕ) (m : Machine) (root va pa top perm : ℕ) (m1 : Machine)
    → va < top
    → map_final_pgtbl m root va pa perm ≡ some m1
    → map_loop (suc left) m root va pa top perm
      ≡ map_loop left m1 root (add64 va pgsize) (add64 pa pgsize) top perm
unfolding map_loop
map_loop-step left m root va pa top perm m1 more run = rw (lt→ltb va top more, run) refl

-- The loop from va up to `top`, n pages on.
pub map_loop-MapsRange :
    (d : ℕ) (root top perm : ℕ) (left n va pa : ℕ) (m : Machine) (owner : Owner)
    → IsSpace d m root owner
    → d ≤ 25
    → 2 * n ≤ free_count (2 ^ d) d m.buddy
    → n < left
    → top ≡ va + 4096 * n
    → top ≤ 2 ^ 39
    → pa + 4096 * n < 2 ^ 56
    → perm < 2 ^ 10
    → (m' : Machine) × (owner' : Owner) × (map_loop left m root va pa top perm ≡ some m')
      × MapsRange d m root owner n (va / 4096) (pa / 4096) (bit_or perm pte_v) m' owner'
unfolding map_loop
map_loop-MapsRange d root top perm zero n va pa m owner space small few_pages rounds end low fits
      few =
    absurd (omega arith)
map_loop-MapsRange d root top perm (suc left) zero va pa m owner space small few_pages rounds end
      low fits few =
    (m, owner, rw (ge→ltb va top (omega arith)) refl, none_mapped d m root owner _ _ _ space)
map_loop-MapsRange d root top perm (suc left) (suc n) va pa m owner space small few_pages rounds end
      low fits few =
    let next : add64 va pgsize ≡ va + 4096 = omega arith in
    let next' : add64 pa pgsize ≡ pa + 4096 = omega arith in
    let (m1, o1, run1, one) =
      map_final_pgtbl-Maps d m root owner va pa perm space small (omega arith) (omega arith) few in
    let (m2, o2, run2, more) =
      map_loop-MapsRange d root top perm left n (va + 4096) (pa + 4096) m1 o1 one.space small
        (omega (arith, one.room, levels_missing-le m.memory root (page_of va))) (omega arith)
        (omega arith) low (omega arith) few in
    let first : page_of va ≡ va / 4096 = omega arith in
    let second : (va + 4096) / 4096 ≡ page_of va + 1 = omega arith in
    let second' : (pa + 4096) / 4096 ≡ pa / 4096 + 1 = omega arith in
    let rights = bit_or perm pte_v in
    (
      m2,
      o2,
      map_loop-step left m root va pa top perm m1 (omega arith) run1
          ∙ ap (λ x. map_loop left m1 root x (add64 pa pgsize) top perm) next
          ∙ ap (λ x. map_loop left m1 root (va + 4096) x top perm) next'
          ∙ run2,
      MapsRange-at d m root owner (suc n) m2 o2 _ _ _ _ _ _ first refl refl (
          first-MapsRange d m m1 m2 root owner o1 o2 va pa perm n one
            (MapsRange-at d m1 root o1 n m2 o2 _ _ _ _ _ _ second second' refl more)),
    )
