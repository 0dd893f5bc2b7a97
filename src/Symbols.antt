-- ===== src/Symbols.antt =====
-- The physical addresses of the linker's symbols: the functions at the top of arch/riscv/kernel/mm.c. A
-- symbol is its kernel address, which the linker script decides.
use simple_rv64os.Base.{ℕ}
use simple_rv64os.Base.Word.{sub64}
use simple_rv64os.Defs.{pa2va_offset}

pub record Symbols : Type 0 where
  pub stext : ℕ
  pub etext : ℕ
  pub srodata : ℕ
  pub erodata : ℕ
  pub ekernel : ℕ
  pub uapp_start : ℕ
  pub uapp_end : ℕ

unfoldable pub get_etext_start : Symbols → ℕ
get_etext_start s = sub64 s.stext pa2va_offset

unfoldable pub get_etext_end : Symbols → ℕ
get_etext_end s = sub64 s.etext pa2va_offset

unfoldable pub get_rodata_start : Symbols → ℕ
get_rodata_start s = sub64 s.srodata pa2va_offset

unfoldable pub get_rodata_end : Symbols → ℕ
get_rodata_end s = sub64 s.erodata pa2va_offset

unfoldable pub get_ekerel : Symbols → ℕ
get_ekerel s = sub64 s.ekernel pa2va_offset

unfoldable pub get_uapp_start : Symbols → ℕ
get_uapp_start s = sub64 s.uapp_start pa2va_offset

unfoldable pub get_uapp_end : Symbols → ℕ
get_uapp_end s = sub64 s.uapp_end pa2va_offset
