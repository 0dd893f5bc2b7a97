-- ===== src/Base/Ctypes.antt =====
-- The integer types of arch/riscv/include/stdint.h, each as the conversion of a 64-bit word to it: an
-- unsigned type drops the high bits, a signed one repeats its sign in them.
use Prim.Native.Nat.{ℕ, ◌+◌, ◌-◌, ◌%◌, ◌^◌}
use mathlib.Core.Path.{◌≡◌}
use native.Mathlib.Omega.{arith}
use simple_rv64os.Base.Tests.{ltb, if◌then◌else◌}

unfoldable pub uint8_t : ℕ → ℕ
uint8_t n = n % 2 ^ 8

unfoldable pub uint16_t : ℕ → ℕ
uint16_t n = n % 2 ^ 16

unfoldable pub uint32_t : ℕ → ℕ
uint32_t n = n % 2 ^ 32

unfoldable pub uint64_t : ℕ → ℕ
uint64_t n = n % 2 ^ 64

-- A plain `char`, which is unsigned on RISC-V.
unfoldable pub int8_t : ℕ → ℕ
int8_t n = n % 2 ^ 8

unfoldable pub int16_t : ℕ → ℕ
int16_t n = if ltb (n % 2 ^ 16) (2 ^ 15) then n % 2 ^ 16 else n % 2 ^ 16 + (2 ^ 64 - 2 ^ 16)

unfoldable pub int32_t : ℕ → ℕ
int32_t n = if ltb (n % 2 ^ 32) (2 ^ 31) then n % 2 ^ 32 else n % 2 ^ 32 + (2 ^ 64 - 2 ^ 32)

unfoldable pub int64_t : ℕ → ℕ
int64_t n = n % 2 ^ 64

-- A signed type and the unsigned one of its width hold the same bits: a word goes through either to the
-- other and back.
pub unsigned-signed :
    (n : ℕ)
    → (uint8_t (int8_t n) ≡ uint8_t n)
      × (uint16_t (int16_t n) ≡ uint16_t n)
      × (uint32_t (int32_t n) ≡ uint32_t n)
      × (uint64_t (int64_t n) ≡ uint64_t n)
unfolding uint8_t uint16_t uint32_t uint64_t int8_t int16_t int32_t int64_t
unsigned-signed n = (ground arith, ground arith, ground arith, ground arith)
