-- ===== src/Firmware.antt =====
-- The calls of the firmware: sbi_ecall of arch/riscv/kernel/sbi.c with its `struct sbiret`
-- (arch/riscv/include/sbi.h), and what goes through it, clock_set_next_event of
-- arch/riscv/kernel/clock.c and putc, puts and printk of lib/printk.c. The firmware itself is not part
-- of the kernel: what it is asked is a list of calls in their order, and what it answers an argument.
pub mod Print
mod Examples
use simple_rv64os.Base.{ℕ, ◌+◌, Option, none, some, List, [], ◌∷◌, ◌++◌}
use simple_rv64os.Base.Word.{add64}
use simple_rv64os.Printk.{Arg, vprintfmt}

-- The registers at the `ecall`: a7, a6, and a0 to a5.
pub record SbiCall : Type 0 where
  pub ext : ℕ
  pub fid : ℕ
  pub arg0 : ℕ
  pub arg1 : ℕ
  pub arg2 : ℕ
  pub arg3 : ℕ
  pub arg4 : ℕ
  pub arg5 : ℕ

pub record SbiRet : Type 0 where
  pub error : ℕ
  pub value : ℕ

abbrev pub Calls : Type 0
Calls = List SbiCall

-- `answer` gives a0 and a1 after the call.
unfoldable pub sbi_ecall :
    (SbiCall → ℕ × ℕ) → ℕ → ℕ → ℕ → ℕ → ℕ → ℕ → ℕ → ℕ → Calls → SbiRet × Calls
sbi_ecall answer ext fid arg0 arg1 arg2 arg3 arg4 arg5 calls =
    let call : SbiCall = record {
      ext = ext;
      fid = fid;
      arg0 = arg0;
      arg1 = arg1;
      arg2 = arg2;
      arg3 = arg3;
      arg4 = arg4;
      arg5 = arg5;
    } in
    let (ret_err, ret_val) = answer call in
    (record { error = ret_err; value = ret_val }, calls ++ call ∷ [])

-- A call with one argument, whose answer is not looked at.
unfoldable pub ask : ℕ → ℕ → Calls → Calls
unfolding sbi_ecall
ask ext arg0 calls = (sbi_ecall (λ c. (0, 0)) ext 0 arg0 0 0 0 0 0 calls).1

abbrev pub sbi_putchar : ℕ
sbi_putchar = 1

abbrev pub putchar : ℕ → Calls → Calls
putchar c calls = ask sbi_putchar c calls

unfoldable pub putc : ℕ → Calls → Calls
unfolding ask
putc c calls = putchar c calls

-- A string is its bytes before the NUL.
unfoldable pub puts : List ℕ → Calls → Calls
puts [] calls = calls
puts (c ∷ s) calls = puts s (putc c calls)

-- The calls and the result; `none` where the arguments do not fit the format.
unfoldable pub printk : List ℕ → List Arg → Calls → Option (ℕ × Calls)
printk fmt vl calls = elim (vprintfmt fmt vl) [
  | none ↦ none
  | some (bytes, n) ↦ some (n, puts bytes calls)
]

-- `cycles` is what get_cycles reads.
unfoldable pub clock_set_next_event : ℕ → Calls → Calls
unfolding ask
clock_set_next_event cycles calls = ask 0 (add64 cycles 10000000) calls

unfoldable pub clock_init : ℕ → Calls → Calls
unfolding clock_set_next_event
clock_init cycles calls = clock_set_next_event cycles calls
