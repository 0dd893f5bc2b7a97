-- ===== src/Defs/Laws.antt =====
-- What the address macros compute.
use simple_rv64os.Base.{ℕ, ◌+◌, ◌-◌, ◌*◌, ◌/◌, ◌%◌, ◌^◌, ◌<◌, ◌≡◌, ◌∙◌, ap, bit_and, arith}
use simple_rv64os.Base.Masks.{and_low, and_high, and_ones}
use simple_rv64os.Defs.{
  pgroundup, pgrounddown, page_mask, vpn_0, vpn_1, vpn_2, pte_valid, pa2va, va2pa, pfn2phys,
  phys2pfn,
}

-- Rounding down clears the offset in the page.
pub pgrounddown_lem : (a : ℕ) → a < 2 ^ 64 → pgrounddown a ≡ a / 4096 * 4096
unfolding pgrounddown
pgrounddown_lem a h =
    and_high 12 (2 ^ 52 - 1) a ∙ ap (λ t. t * 4096) (and_ones 52 (a / 2 ^ 12) (omega arith))

-- Rounding up, away from the end of the address space.
pub pgroundup_lem : (a : ℕ) → a + 4095 < 2 ^ 64 → pgroundup a ≡ (a + 4095) / 4096 * 4096
unfolding pgroundup
pgroundup_lem a h =
    ap (λ t. bit_and t page_mask) e
    ∙ and_high 12 (2 ^ 52 - 1) (a + 4095)
    ∙ ap (λ t. t * 4096) (and_ones 52 ((a + 4095) / 2 ^ 12) (omega arith))
  where
    e : (((a + 4096) % 2 ^ 64) + 2 ^ 64 - 1) % 2 ^ 64 ≡ a + 4095
    e = omega arith

pub vpn_0_lem : (a : ℕ) → vpn_0 a ≡ a / 2 ^ 12 % 2 ^ 9
unfolding vpn_0
vpn_0_lem a = and_low 9 (a / 2 ^ 12)

pub vpn_1_lem : (a : ℕ) → vpn_1 a ≡ a / 2 ^ 21 % 2 ^ 9
unfolding vpn_1
vpn_1_lem a = and_low 9 (a / 2 ^ 21)

pub vpn_2_lem : (a : ℕ) → vpn_2 a ≡ a / 2 ^ 30 % 2 ^ 9
unfolding vpn_2
vpn_2_lem a = and_low 9 (a / 2 ^ 30)

pub pte_valid_lem : (pte : ℕ) → pte_valid pte ≡ pte % 2
pte_valid_lem pte = and_low 1 pte

-- A frame number survives the way to its kernel address and back.
pub phys2pfn-va2pa : (pfn : ℕ) → pfn < 2 ^ 37 → phys2pfn (va2pa (pa2va (pfn2phys pfn))) ≡ pfn
phys2pfn-va2pa pfn h = omega arith
