-- ===== src/Mm.antt =====
-- The page interface of arch/riscv/kernel/mm.c over the buddy allocator: buddy_init, alloc_pages,
-- alloc_page, free_pages, kalloc, pkalloc, kfree and kfreerange. `_ekernel`, which the linker
-- places, is an argument of `buddy_init`, and so is what memory holds where the bitmap is put.
pub mod Fill
pub mod Init
pub mod Pages
pub mod Examples
use simple_rv64os.Base.{
  ℕ, zero, suc, ◌+◌, ◌-◌, ◌*◌, ◌/◌, ◌^◌, Bool, not, Option, none, some, ltb, leb, ◌==◌,
  if◌then◌else◌,
}
use simple_rv64os.Base.Word.{add64, sub64, mul64}
use simple_rv64os.Defs.{phy_size, pgsize, pa2va_offset, pa2va, va2pa, pfn2phys, phys2pfn, pgroundup}
use simple_rv64os.Buddy.{Bitmap, Buddy, upd, is_power_of_2, fixsize, buddy_alloc, buddy_free}

-- 2 * size - 1 rounds from `i`: node_size is halved where a level of the tree begins.
pub fill : ℕ → ℕ → ℕ → Bitmap → Bitmap
fill zero i node_size m = m
fill (suc left) i node_size m =
    let s = if is_power_of_2 (add64 i 1) then node_size / 2 else node_size in
    fill left (add64 i 1) s (upd m i s)

-- memset(bitmap, 0, 2 * size * sizeof(*bitmap))
pub clear : ℕ → Bitmap → Bitmap
clear size m i = if ltb i (mul64 2 size) then 0 else m i

-- The pages below `limit` are taken one at a time; `none` if this does not end.
pub reserve : ℕ → ℕ → ℕ → Buddy → Option Buddy
reserve zero limit pfn b = none
reserve (suc fuel) limit pfn b =
    let rest : Option Buddy = elim (buddy_alloc b 1) [
      | none ↦ none
      | some (_, b') ↦ reserve fuel limit (add64 pfn 1) b'
    ] in
    if ltb (pfn2phys pfn) limit then rest else some b

pub buddy_size : ℕ
buddy_size = let n = phy_size / pgsize in if not (is_power_of_2 n) then fixsize n else n

-- The bitmap of `size` pages before any page is taken.
pub fresh : ℕ → Bitmap → Buddy
fresh size memory = record {
  size = size;
  bitmap = fill (sub64 (mul64 2 size) 1) 0 (mul64 size 2) (clear size memory);
}

pub with_end : ℕ → Option Buddy → Option (Buddy × ℕ)
with_end free_page_start none = none
with_end free_page_start (some b) = some (b, free_page_start)

-- The bitmap, then the pages below `free_page_start`.
pub reserved : ℕ → ℕ → Bitmap → Option (Buddy × ℕ)
reserved size free_page_start memory =
    with_end free_page_start (reserve (suc (2 ^ 52)) (va2pa free_page_start) 0 (fresh size memory))

-- The allocator, and where the kernel's own pages end.
pub buddy_init : ℕ → Bitmap → Option (Buddy × ℕ)
buddy_init ekernel memory =
    reserved buddy_size (add64 ekernel (mul64 (mul64 2 buddy_size) 8)) memory

unfoldable pub alloc_pages : Buddy → ℕ → Option (ℕ × Buddy)
alloc_pages b nrpages = elim (buddy_alloc b nrpages) [
  | none ↦ none
  | some (pfn, b') ↦ if pfn == 0 then some (0, b') else some (pa2va (pfn2phys pfn), b')
]

unfoldable pub alloc_page : Buddy → Option (ℕ × Buddy)
alloc_page b = elim (buddy_alloc b 1) [
  | none ↦ none
  | some (pfn, b') ↦ if pfn == 0 then some (0, b') else some (pa2va (pfn2phys pfn), b')
]

unfoldable pub free_pages : Buddy → ℕ → Buddy
free_pages b va = buddy_free b (phys2pfn (va2pa va))

unfoldable pub kalloc : Buddy → Option (ℕ × Buddy)
unfolding alloc_page
kalloc b = alloc_page b

-- The result of an allocation that is used as a pointer right away: NULL is stuck.
abbrev pub non_null : Option (ℕ × Buddy) → Option (ℕ × Buddy)
non_null none = none
non_null (some (va, b)) = if va == 0 then none else some (va, b)

-- The physical address of a page.
unfoldable pub pkalloc : Buddy → Option (ℕ × Buddy)
unfolding kalloc
pkalloc b = elim (kalloc b) [ none ↦ none | some (va, b') ↦ some (sub64 va pa2va_offset, b') ]

unfoldable pub kfree : Buddy → ℕ → Buddy
unfolding free_pages
kfree b addr = free_pages b addr

-- for (; addr + PGSIZE <= end; addr += PGSIZE) kfree(addr), with `left` rounds at most.
pub kfree_loop : ℕ → ℕ → ℕ → Buddy → Buddy
kfree_loop zero addr end b = b
kfree_loop (suc left) addr end b =
    let rest = kfree_loop left (add64 addr pgsize) end (kfree b addr) in
    if leb (add64 addr pgsize) end then rest else b

pub kfreerange : Buddy → ℕ → ℕ → Buddy
kfreerange b start end = kfree_loop (end / pgsize) (pgroundup start) end b

-- The free list of a former allocator, which no code reads: a page in it starts with a pointer.
record FreePage : Type 0 where
  next : Option ℕ

record Kmem : Type 0 where
  freelist : Option ℕ
