-- ===== src/User/Examples.antt =====
-- The user's printf on concrete formats.
use simple_rv64os.Base.{ℕ, ◌-◌, ◌≡◌, refl, ◌^◌, arith, none, some, List, [], ◌∷◌}
use simple_rv64os.Base.Lists.{length}
use simple_rv64os.Printk.{
  Arg, word, text, vprintfmt, result_of, format_loop, format_byte, convert, convert_word,
  put_signed, put_unsigned, emit, finish, to_long, digits, long_digits, from_last, reverse_onto,
}
use simple_rv64os.User.{
  ◌>>=◌, user_vprintfmt, printf, user_loop, user_byte_of, user_convert, user_word, user_signed,
  user_unsigned, store_all, store_char, close, with_rest, plain_char, decimal_digits,
}
use simple_rv64os.User.Same.{no_nul}
use simple_rv64os.User.Room.{user_vprintfmt-room}

-- "%d %lu%c%s\n"
abbrev fmt : List ℕ
fmt = 37 ∷ 100 ∷ 32 ∷ 37 ∷ 108 ∷ 117 ∷ 37 ∷ 99 ∷ 37 ∷ 115 ∷ 10 ∷ []

-- -25, 309, 'A', "hi"
abbrev args : List Arg
args = word (2 ^ 32 - 25) ∷ word 309 ∷ word 65 ∷ text (104 ∷ 105 ∷ []) ∷ []

-- "-25 309Ahi\n" and the NUL.
shown :
    user_vprintfmt fmt args ≡ some (45 ∷ 50 ∷ 53 ∷ 32 ∷ 51 ∷ 48 ∷ 57 ∷ 65 ∷ 104 ∷ 105 ∷ 10 ∷ 0 ∷ [])
unfolding user_vprintfmt ◌>>=◌ user_loop user_byte_of user_convert user_word user_signed
    user_unsigned store_all store_char close with_rest plain_char decimal_digits to_long length
    digits reverse_onto long_digits
shown = refl

answered :
    printf (λ fd bytes size. size - 1) fmt args
    ≡ some (45 ∷ 50 ∷ 53 ∷ 32 ∷ 51 ∷ 48 ∷ 57 ∷ 65 ∷ 104 ∷ 105 ∷ 10 ∷ 0 ∷ [], 11)
unfolding length printf
answered = rw (printf, shown) refl

missing : user_vprintfmt fmt [] ≡ none
unfolding user_vprintfmt ◌>>=◌ user_loop user_byte_of user_convert
missing = refl

-- The kernel prints a NUL before the digits.
kernels : List ℕ
kernels = 45 ∷ 0 ∷ 50 ∷ 53 ∷ 32 ∷ 0 ∷ 51 ∷ 48 ∷ 57 ∷ 65 ∷ 104 ∷ 105 ∷ 10 ∷ []

kernels_lem : vprintfmt fmt args ≡ some (kernels, 13)
unfolding kernels vprintfmt result_of format_loop format_byte convert convert_word put_signed
    long_digits put_unsigned emit finish to_long digits from_last reverse_onto length
kernels_lem = refl

user_vprintfmt-room_example :
    (bytes : List ℕ) × (user_vprintfmt fmt args ≡ some bytes) × (no_nul kernels ≡ no_nul bytes)
unfolding kernels length
user_vprintfmt-room_example = user_vprintfmt-room fmt args kernels 13 kernels_lem (omega arith)
