-- ===== src/Printk/Examples.antt =====
-- vprintfmt on concrete formats.
use simple_rv64os.Base.{
  ℕ, ◌-◌, ◌%◌, ◌^◌, ◌≡◌, ◌≢◌, refl, ◌⊎◌, true, some, List, [], ◌∷◌, ◌++◌, arith,
}
use simple_rv64os.Base.Lists.{length}
use simple_rv64os.Printk.{
  word, text, to_long, hex_loop, hexchar, hexdigits, digits, negative_digits, long_digits,
  reverse_onto, from_last, emit, finish, put_signed, put_unsigned, put_hex, convert_word, convert,
  format_byte, format_loop, result_of, vprintfmt,
}
use simple_rv64os.Printk.Digits.{read, decimal, all_digits, sign_of, magnitude, vprintfmt-decimal}
use simple_rv64os.Printk.Count.{vprintfmt-length}

-- "n=%d" of 7: a NUL byte before the digit, and counted.
seven : vprintfmt (110 ∷ 61 ∷ 37 ∷ 100 ∷ []) (word 7 ∷ []) ≡ some (110 ∷ 61 ∷ 0 ∷ 55 ∷ [], 4)
unfolding vprintfmt result_of format_loop format_byte convert convert_word put_signed long_digits
    emit finish to_long digits from_last reverse_onto length
seven = refl

-- "%s%x" of "ab" and 255.
text_hex :
    vprintfmt (37 ∷ 115 ∷ 37 ∷ 120 ∷ []) (text (97 ∷ 98 ∷ []) ∷ word 255 ∷ [])
    ≡ some (97 ∷ 98 ∷ 48 ∷ 48 ∷ 48 ∷ 48 ∷ 48 ∷ 48 ∷ 102 ∷ 102 ∷ [], 10)
unfolding vprintfmt result_of format_loop format_byte convert convert_word put_hex hexdigits
    hex_loop hexchar emit finish to_long length
text_hex = refl

-- "%u" of 2 ^ 32 - 7, whose digit comes out below '0'.
unsigned_seven : vprintfmt (37 ∷ 117 ∷ []) (word (2 ^ 32 - 7) ∷ []) ≡ some (0 ∷ 41 ∷ [], 2)
unfolding vprintfmt result_of format_loop format_byte convert convert_word put_unsigned emit finish
    to_long digits negative_digits from_last reverse_onto length
unsigned_seven = refl

vprintfmt-length_example : 4 ≡ length {A = ℕ} (110 ∷ 61 ∷ 0 ∷ 55 ∷ []) % 2 ^ 32
vprintfmt-length_example =
    vprintfmt-length (110 ∷ 61 ∷ 37 ∷ 100 ∷ []) (word 7 ∷ []) (110 ∷ 61 ∷ 0 ∷ 55 ∷ []) 4 seven

vprintfmt-decimal_example :
    (n : ℕ) × (((◌≡◌ {A = ℕ} 4294967289 0)
        × (vprintfmt (37 ∷ 100 ∷ []) (word 4294967289 ∷ []) ≡ some (48 ∷ [], n)))
      ⊎ ((◌≢◌ {A = ℕ} 4294967289 0)
          × ((ds : List ℕ) × (vprintfmt (37 ∷ 100 ∷ []) (word 4294967289 ∷ [])
                ≡ some (sign_of 4294967289 ++ 0 ∷ ds, n))
              × (read 10 decimal 0 ds ≡ magnitude 4294967289)
              × (all_digits ds ≡ true))))
vprintfmt-decimal_example = vprintfmt-decimal 4294967289 (omega arith)
