-- ===== src/Defs.antt =====
-- The constants and address macros of arch/riscv/include/defs.h, in 64-bit arithmetic.
pub mod Laws
pub mod Numbers
use simple_rv64os.Base.{ℕ, ◌+◌, ◌-◌, ◌*◌, ◌/◌, ◌^◌, bit_and, bit_or}
use simple_rv64os.Base.Word.{u64, add64, sub64, mul64}

abbrev pub phy_start : ℕ
phy_start = 0x8000_0000

abbrev pub phy_size : ℕ
phy_size = 128 * 1024 * 1024

abbrev pub phy_end : ℕ
phy_end = add64 phy_start phy_size

abbrev pub pgsize : ℕ
pgsize = 0x1000

abbrev pub opensbi_size : ℕ
opensbi_size = 0x20_0000

abbrev pub vm_start : ℕ
vm_start = 0xffff_ffe0_0000_0000

abbrev pub vm_end : ℕ
vm_end = 0xffff_ffff_0000_0000

abbrev pub vm_size : ℕ
vm_size = sub64 vm_end vm_start

abbrev pub pa2va_offset : ℕ
pa2va_offset = sub64 vm_start phy_start

-- ~(PGSIZE - 1), as a 64-bit word.
abbrev pub page_mask : ℕ
page_mask = sub64 (2 ^ 64 - 1) (sub64 pgsize 1)

unfoldable pub pgroundup : ℕ → ℕ
pgroundup addr = bit_and (sub64 (add64 addr pgsize) 1) page_mask

unfoldable pub pgrounddown : ℕ → ℕ
pgrounddown addr = bit_and addr page_mask

abbrev pub idx_mask : ℕ
idx_mask = 0x1ff

abbrev pub wide_idx_mask : ℕ
wide_idx_mask = 0x3ff_ffff

abbrev pub pg_num : ℕ → ℕ
pg_num addr = addr / 2 ^ 12

-- PG_NUM shifted up by 10, as `VPN` writes it.
abbrev pub vpn : ℕ → ℕ
vpn pg_idx = mul64 pg_idx (2 ^ 10)

unfoldable pub vpn_0 : ℕ → ℕ
vpn_0 va = bit_and (va / 2 ^ 12) idx_mask

unfoldable pub vpn_1 : ℕ → ℕ
vpn_1 va = bit_and (va / 2 ^ 21) idx_mask

unfoldable pub vpn_2 : ℕ → ℕ
vpn_2 va = bit_and (va / 2 ^ 30) idx_mask

-- PPN_0, PPN_1 and PPN_2 name their parameter `pte`, and read a `va` of the place they stand in.
unfoldable pub ppn_0 : ℕ → ℕ → ℕ
ppn_0 va pte = bit_and (va / 2 ^ 12) idx_mask

unfoldable pub ppn_1 : ℕ → ℕ → ℕ
ppn_1 va pte = bit_and (va / 2 ^ 21) idx_mask

unfoldable pub ppn_2 : ℕ → ℕ → ℕ
ppn_2 va pte = bit_and (va / 2 ^ 30) wide_idx_mask

abbrev pub pte2addr : ℕ → ℕ
pte2addr pte = mul64 (pte / 2 ^ 10) (2 ^ 12)

abbrev pub addr2pte : ℕ → ℕ
addr2pte addr = mul64 (addr / 2 ^ 12) (2 ^ 10)

abbrev pub va2pte : ℕ → ℕ
va2pte va = addr2pte (sub64 va pa2va_offset)

abbrev pub pte2va : ℕ → ℕ
pte2va pte = add64 pa2va_offset (pte2addr pte)

abbrev pub va2pa : ℕ → ℕ
va2pa x = sub64 x pa2va_offset

abbrev pub pa2va : ℕ → ℕ
pa2va x = add64 x pa2va_offset

abbrev pub pfn2phys : ℕ → ℕ
pfn2phys x = add64 (mul64 x (2 ^ 12)) phy_start

abbrev pub phys2pfn : ℕ → ℕ
phys2pfn x = sub64 x phy_start / 2 ^ 12

abbrev pub pte_v : ℕ
pte_v = 1

abbrev pub pte_r : ℕ
pte_r = 2

abbrev pub pte_w : ℕ
pte_w = 4

abbrev pub pte_x : ℕ
pte_x = 8

abbrev pub pte_u : ℕ
pte_u = 16

abbrev pub pte_g : ℕ
pte_g = 2 ^ 5

abbrev pub pte_a : ℕ
pte_a = 2 ^ 6

abbrev pub pte_d : ℕ
pte_d = 2 ^ 7

abbrev pub pte_valid : ℕ → ℕ
pte_valid pte = bit_and pte pte_v

abbrev pub user_end : ℕ
user_end = 0x40_0000_0000

abbrev pub sv39 : ℕ
sv39 = 8
