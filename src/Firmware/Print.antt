-- ===== src/Firmware/Print.antt =====
-- What printk asks of the firmware.
use simple_rv64os.Base.{ℕ, ◌%◌, ◌^◌, ◌≡◌, refl, sym, ◌∙◌, ap, some, List, [], ◌∷◌, ◌++◌}
use mathlib.Core.List.{append_assoc, append-nil}
use simple_rv64os.Base.Lists.{length}
use simple_rv64os.Firmware.{SbiCall, Calls, sbi_ecall, ask, sbi_putchar, putc, puts, printk}
use simple_rv64os.Printk.{Arg, vprintfmt}
use simple_rv64os.Printk.Count.{vprintfmt-length}

-- The legacy call that puts one byte on the console.
unfoldable pub putchar_call : ℕ → SbiCall
putchar_call c = record {
  ext = sbi_putchar;
  fid = 0;
  arg0 = c;
  arg1 = 0;
  arg2 = 0;
  arg3 = 0;
  arg4 = 0;
  arg5 = 0;
}

unfoldable pub putchar_calls : List ℕ → Calls
putchar_calls [] = []
putchar_calls (c ∷ s) = putchar_call c ∷ putchar_calls s

pub putc_lem : (c : ℕ) (calls : Calls) → putc c calls ≡ calls ++ putchar_call c ∷ []
unfolding putc ask sbi_ecall putchar_call
putc_lem c calls = refl

pub puts_lem : (s : List ℕ) (calls : Calls) → puts s calls ≡ calls ++ putchar_calls s
unfolding puts putchar_calls
puts_lem [] calls = sym (append-nil calls)
puts_lem (c ∷ s) calls =
    puts_lem s (putc c calls)
    ∙ ap (λ l. l ++ putchar_calls s) (putc_lem c calls)
    ∙ append_assoc calls (putchar_call c ∷ []) (putchar_calls s)

-- Where the arguments fit the format, printk asks the firmware for the bytes that vprintfmt gives, one
-- call for each and in their order, for nothing else, and returns how many they are, modulo 2 ^ 32.
pub printk-putchar_calls :
    (fmt : List ℕ) (vl : List Arg) (bytes : List ℕ) (n : ℕ) (calls : Calls)
    → vprintfmt fmt vl ≡ some (bytes, n)
    → printk fmt vl calls ≡ some (length bytes % 2 ^ 32, calls ++ putchar_calls bytes)
unfolding printk
printk-putchar_calls fmt vl bytes n calls e =
    rw (printk, e)
      (ap (λ k. some (k, puts bytes calls)) (vprintfmt-length fmt vl bytes n e)
        ∙ ap (λ l. some (length bytes % 2 ^ 32, l)) (puts_lem bytes calls))
