-- ===== src/Firmware/Examples.antt =====
-- printk and the clock on concrete inputs.
use simple_rv64os.Base.{ℕ, ◌%◌, ◌^◌, ◌≡◌, refl, some, List, [], ◌∷◌, ◌++◌}
use simple_rv64os.Base.Lists.{length}
use simple_rv64os.Firmware.{ask, printk, clock_set_next_event}
use simple_rv64os.Firmware.Print.{putchar_calls, printk-putchar_calls}
use simple_rv64os.Printk.{
  word, vprintfmt, result_of, format_loop, format_byte, convert, convert_word, put_hex, emit,
  finish, to_long, hexdigits, hex_loop, hexchar,
}

abbrev line : List ℕ
line = 120 ∷ 61 ∷ 48 ∷ 48 ∷ 48 ∷ 48 ∷ 48 ∷ 97 ∷ 98 ∷ 99 ∷ []

hex_line : vprintfmt (120 ∷ 61 ∷ 37 ∷ 120 ∷ []) (word 2748 ∷ []) ≡ some (line, 10)
unfolding vprintfmt result_of format_loop format_byte convert convert_word put_hex emit finish
    to_long hexdigits hex_loop hexchar
hex_line = refl

printk-putchar_calls_example :
    printk (120 ∷ 61 ∷ 37 ∷ 120 ∷ []) (word 2748 ∷ []) []
    ≡ some (length line % 2 ^ 32, [] ++ putchar_calls line)
printk-putchar_calls_example = printk-putchar_calls _ _ _ 10 [] hex_line

at_5 : clock_set_next_event 5 [] ≡ ask 0 10000005 []
unfolding clock_set_next_event
at_5 = refl
