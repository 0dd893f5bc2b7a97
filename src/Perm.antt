-- ===== src/Perm.antt =====
-- Access rights: the VMA flags of include/vma.h, the segment flags of include/elf.h, the page table
-- bits of arch/riscv/include/defs.h, and the functions between them (map_vm_perm in
-- include/vma.h; perm_elf2vm, perm_elf2pte and map_elf_perm in arch/riscv/kernel/elfutils.c).
pub mod Laws
mod Examples
use simple_rv64os.Base.{ℕ, ◌*◌, Bool, true, false, not, bit_and, bit_or, ◌==◌, if◌then◌else◌}
use simple_rv64os.Base.Word.{mul64}
use simple_rv64os.Defs.{pte_r, pte_w, pte_x}

abbrev pub vm_x_mask : ℕ
vm_x_mask = 8

abbrev pub vm_w_mask : ℕ
vm_w_mask = 4

abbrev pub vm_r_mask : ℕ
vm_r_mask = 2

abbrev pub vm_anonym : ℕ
vm_anonym = 1

abbrev pub pf_x : ℕ
pf_x = 1

abbrev pub pf_w : ℕ
pf_w = 2

abbrev pub pf_r : ℕ
pf_r = 4

-- !!x
abbrev pub truth : ℕ → ℕ
truth x = if x == 0 then 0 else 1

unfoldable pub map_vm_perm : ℕ → ℕ
map_vm_perm p =
    bit_or (bit_or (truth (bit_and p vm_r_mask) * pte_r) (truth (bit_and p vm_w_mask) * pte_w))
      (truth (bit_and p vm_x_mask) * pte_x)

unfoldable pub perm_elf2vm : ℕ → ℕ
perm_elf2vm p =
    bit_or (bit_or (truth (bit_or p pf_w) * vm_w_mask) (truth (bit_or p pf_r) * vm_r_mask))
      (truth (bit_or p pf_x) * vm_x_mask)

unfoldable pub perm_elf2pte : ℕ → ℕ
perm_elf2pte p =
    bit_or (bit_or (truth (bit_or p pf_w) * pte_w) (truth (bit_or p pf_r) * pte_r))
      (truth (bit_or p pf_x) * pte_x)

unfoldable pub map_elf_perm : ℕ → ℕ
map_elf_perm p =
    bit_or (bit_or (truth (bit_or p pf_w) * pte_w) (truth (bit_or p pf_r) * pte_r))
      (truth (bit_or p pf_x) * pte_x)

-- is_annoy_vma, on the flags of an area.
unfoldable pub is_annoy : ℕ → Bool
is_annoy flags = not (bit_and flags vm_anonym == 0)
