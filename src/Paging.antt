-- ===== src/Paging.antt =====
-- The page tables of arch/riscv/kernel/vm.c. A page table is the address of its first entry in a memory of
-- bytes. The early table, whose place the linker decides, is an
-- array of its own. What setup_vm prints and the register it prepares are left out.
pub mod Early
pub mod Walk
pub mod Map
pub mod Space
mod Examples
use simple_rv64os.Base.{
  ℕ, zero, suc, ◌+◌, ◌*◌, ◌/◌, ◌^◌, bit_and, bit_or, Bool, true, false, not, Option, none, some,
  ltb, ◌==◌, if◌then◌else◌,
}
use simple_rv64os.Base.Arrays.{put}
use simple_rv64os.Base.Word.{add64, sub64, mul64}
use simple_rv64os.Defs.{
  va2pa, phy_end, pa2va_offset, opensbi_size, phy_start, vm_start, vm_size, pg_num, vpn, idx_mask,
  vpn_0, vpn_1, vpn_2, addr2pte, pte2va, pte_v, pte_r, pte_w, pte_x, pte_valid, pgsize, pgroundup,
}
use simple_rv64os.Buddy.{Buddy}
use simple_rv64os.Bytes.{Bytes, load64, store64}
use simple_rv64os.Mm.{pkalloc}

abbrev pub Table : Type 0
Table = ℕ → ℕ

abbrev pub early_pgsize : ℕ
early_pgsize = 2 ^ 30

unfoldable pub map_early_pgtbl : Table → ℕ → ℕ → ℕ → Table
map_early_pgtbl early_pgtbl va pa perm =
    put early_pgtbl (bit_and (va / 2 ^ 30) idx_mask) (bit_or (vpn (pg_num pa)) perm)

-- Both mappings of the gigabyte at offset `i`, which is below VM_SIZE.
unfoldable pub map_both : Table → ℕ → Table
map_both early_pgtbl i =
    let perm = bit_or (bit_or (bit_or pte_v pte_r) pte_w) pte_x in
    let same = map_early_pgtbl early_pgtbl (add64 phy_start i) (add64 phy_start i) perm in
    map_early_pgtbl same (add64 vm_start i) (add64 phy_start i) perm

-- The loop from offset `i`, with `left` rounds at most.
unfoldable pub early_loop : ℕ → ℕ → Table → Table
early_loop zero i early_pgtbl = early_pgtbl
early_loop (suc left) i early_pgtbl =
    let rest = early_loop left (add64 i early_pgsize) (map_both early_pgtbl i) in
    if ltb i vm_size then rest else early_pgtbl

-- memset(early_pgtbl, 0x0, PGSIZE)
abbrev pub cleared : Table → Table
cleared early_pgtbl i = if ltb i (pgsize / 8) then 0 else early_pgtbl i

unfoldable pub setup_vm : Table → Table
setup_vm early_pgtbl = early_loop (suc (vm_size / early_pgsize)) 0 (cleared early_pgtbl)

pub record Machine : Type 0 where
  pub memory : Bytes
  pub buddy : Buddy

-- A failure stops what follows.
infixl 1 ◌>>=◌
unfoldable pub ◌>>=◌ : Option Machine → (Machine → Option Machine) → Option Machine
none >>= f = none
some m >>= f = f m

-- page_table_base[idx]
abbrev pub entry : ℕ → ℕ → ℕ
entry page_table_base idx = add64 page_table_base (mul64 8 idx)

-- The new entry, and the machine.
unfoldable pub setup_pte : Machine → ℕ → ℕ → ℕ → Option (ℕ × Machine)
setup_pte m page_table_base pte_idx perm = elim (pkalloc m.buddy) [
  | none ↦ none
  | some (page_pa, b) ↦
      let pte = bit_or (addr2pte page_pa) perm in
      some
        (pte, record { memory = store64 m.memory (entry page_table_base pte_idx) pte; buddy = b })
]

-- One level down: the entry, set up where it is not valid, and the table it leads to. Without a page the
-- new entry leads to NULL, which the caller reads next: `none`.
unfoldable pub next_table : Machine → ℕ → ℕ → Option (ℕ × Machine)
next_table m pgtbl idx =
    let pte = load64 m.memory (entry pgtbl idx) in
    if pte_valid pte == 0
    then elim (setup_pte m pgtbl idx pte_v) [
      | none ↦ none
      | some (pte', m') ↦ if pte2va pte' == 0 then none else some (pte2va pte', m')
    ]
    else some (pte2va pte, m)

unfoldable pub set_leaf : Machine → ℕ → ℕ → ℕ → ℕ → Machine
set_leaf m pgtbl va pa perm = record m {
  memory = store64 m.memory (entry pgtbl (vpn_0 va)) (bit_or (addr2pte pa) (bit_or perm pte_v));
}

unfoldable pub map_final_pgtbl : Machine → ℕ → ℕ → ℕ → ℕ → Option Machine
map_final_pgtbl m pgtbl va pa perm = elim (next_table m pgtbl (vpn_2 va)) [
  | none ↦ none
  | some (mid, m1) ↦ elim (next_table m1 mid (vpn_1 va)) [
    | none ↦ none
    | some (leaf, m2) ↦ some (set_leaf m2 leaf va pa perm)
  ]
]

unfoldable pub is_va_mapped : Bytes → ℕ → ℕ → Bool
is_va_mapped memory va pgtbl =
    let pte2 = load64 memory (entry pgtbl (vpn_2 va)) in
    let pte1 = load64 memory (entry (pte2va pte2) (vpn_1 va)) in
    let pte0 = load64 memory (entry (pte2va pte1) (vpn_0 va)) in
    if pte_valid pte2 == 0
    then false
    else if pte_valid pte1 == 0
    then false
    else not (pte_valid pte0 == 0)

-- for (va = base; va < top; va += PGSIZE, pa += PGSIZE), with `left` rounds at most; `none` if that
-- does not end it.
unfoldable pub map_loop : ℕ → Machine → ℕ → ℕ → ℕ → ℕ → ℕ → Option Machine
map_loop zero m pgtbl va pa top perm = none
map_loop (suc left) m pgtbl va pa top perm =
    let rest : Option Machine = elim (map_final_pgtbl m pgtbl va pa perm) [
      | none ↦ none
      | some m' ↦ map_loop left m' pgtbl (add64 va pgsize) (add64 pa pgsize) top perm
    ] in
    if ltb va top then rest else some m

unfoldable pub create_mapping : Machine → ℕ → ℕ → ℕ → ℕ → ℕ → Option Machine
create_mapping m pgtbl va pa sz perm =
    let base = pgroundup va in map_loop (suc (sz / pgsize + 1)) m pgtbl base pa (add64 base sz) perm

-- for (; va < top; va += PGSIZE) map_final_pgtbl(pgtbl, va, VA2PA(va), perm, true), with `left` rounds
-- at most; `none` if that does not end it.
unfoldable pub final_loop : ℕ → Machine → ℕ → ℕ → ℕ → ℕ → Option Machine
final_loop zero m pgtbl va top perm = none
final_loop (suc left) m pgtbl va top perm =
    let rest : Option Machine = elim (map_final_pgtbl m pgtbl va (va2pa va) perm) [
      | none ↦ none
      | some m' ↦ final_loop left m' pgtbl (add64 va pgsize) top perm
    ] in
    if ltb va top then rest else some m

-- One of the three loops, with a round for each page and one more.
unfoldable pub final_range : Machine → ℕ → ℕ → ℕ → ℕ → Option Machine
final_range m pgtbl va top perm = final_loop (suc (sub64 top va / pgsize + 1)) m pgtbl va top perm

-- The kernel's text, its read-only data and all other memory; `etext` and `erodata` are placed by the
-- linker, and `swapper_pg_dir` is the root's address.
unfoldable pub setup_vm_final : ℕ → ℕ → ℕ → Machine → Option Machine
setup_vm_final etext erodata swapper_pg_dir m =
    let kernel_start = add64 vm_start opensbi_size in
    let text_end = pgroundup etext in
    let rodata_end = pgroundup erodata in
    let mapped_mem_end = add64 phy_end pa2va_offset in
    do
      m1 ← final_range m swapper_pg_dir kernel_start text_end (bit_or (bit_or pte_v pte_r) pte_x)
      m2 ← final_range m1 swapper_pg_dir text_end rodata_end (bit_or pte_v pte_r)
      final_range m2 swapper_pg_dir rodata_end mapped_mem_end (bit_or (bit_or pte_w pte_r) pte_v)
