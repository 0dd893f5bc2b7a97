-- ===== src/Hart.antt =====
-- The registers that the kernel reads and writes by inline assembly: read_csr, csr_write, read_register
-- and reg_write of arch/riscv/include/defs.h, and get_cycles of arch/riscv/kernel/clock.c. A register is
-- its number, a CSR its address in the privileged architecture; register 0 is wired to zero.
use simple_rv64os.Base.{ℕ, ◌%◌, ◌^◌, ◌≡◌, ◌≢◌, ◌==◌, if◌then◌else◌, ne→==}
use simple_rv64os.Base.Arrays.{put, put-same, put-other}
use simple_rv64os.Defs.{pa2va_offset}
use simple_rv64os.Defs.Numbers.{r_t0}
use simple_rv64os.Kernel.Handler.{Trap}

pub record Hart : Type 0 where
  pub csrs : ℕ → ℕ
  pub registers : ℕ → ℕ

abbrev pub csr_sscratch : ℕ
csr_sscratch = 0x140

abbrev pub csr_stval : ℕ
csr_stval = 0x143

abbrev pub csr_time : ℕ
csr_time = 0xc01

unfoldable pub read_csr : Hart → ℕ → ℕ
read_csr h reg = h.csrs reg

unfoldable pub csr_write : Hart → ℕ → ℕ → Hart
csr_write h csr val = record h { csrs = put h.csrs csr (val % 2 ^ 64) }

unfoldable pub read_register : Hart → ℕ → ℕ
read_register h reg = if reg == 0 then 0 else h.registers reg

unfoldable pub reg_write : Hart → ℕ → ℕ → Hart
reg_write h reg val =
    if reg == 0 then h else record h { registers = put h.registers reg (val % 2 ^ 64) }

-- The last step of setup_vm: the offset for the relocation, in t0.
unfoldable pub prepare_relocate : Hart → Hart
unfolding reg_write
prepare_relocate h = reg_write h r_t0 pa2va_offset

unfoldable pub get_cycles : Hart → ℕ
unfolding read_csr
get_cycles h = read_csr h csr_time

-- What trap_handler finds when it is called with a cause and a frame.
unfoldable pub trap_of : Hart → ℕ → ℕ → Trap
unfolding read_csr get_cycles
trap_of h scause frame_at = record {
  scause = scause;
  stval = read_csr h csr_stval;
  sscratch = read_csr h csr_sscratch;
  cycles = get_cycles h;
  frame_at = frame_at;
}

-- What is read after a write.
pub read_csr-csr_write :
    (h : Hart) (a b val : ℕ)
    → (read_csr (csr_write h a val) a ≡ val % 2 ^ 64)
      × (a ≢ b → read_csr (csr_write h a val) b ≡ read_csr h b)
unfolding read_csr csr_write
read_csr-csr_write h a b val = (put-same h.csrs a _, λ ne. put-other h.csrs a _ b ne)

pub read_register-reg_write :
    (h : Hart) (r val : ℕ) → r ≢ 0 → read_register (reg_write h r val) r ≡ val % 2 ^ 64
unfolding read_register reg_write
read_register-reg_write h r val ne = rw (ne→== r 0 ne) (put-same h.registers r _)
