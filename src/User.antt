-- ===== src/User.antt =====
-- The user programs' printf, of user/printf.c. The bytes of `buffer` below `tail` are a list, and its
-- array has 1000 places: a write behind them, which C leaves undefined, is `none`, as is an argument
-- that is missing or of the other kind. Conversions are those of Printk, but for what is done with the
-- digits. `answer` is what the kernel returns for the write of the buffer: fd, bytes and their number.
pub mod Programs
pub mod Store
pub mod Fits
pub mod Grows
pub mod Room
pub mod Same
mod Examples
use simple_rv64os.Base.{
  ℕ, zero, suc, ◌+◌, ◌-◌, ◌*◌, ◌%◌, ◌^◌, Bool, true, false, Option, none, some, List, [], ◌∷◌, ◌++◌,
  ltb, ◌==◌, if◌then◌else◌,
}
use simple_rv64os.Base.Lists.{length}
use simple_rv64os.Base.Word.{add64, sub64}
use simple_rv64os.Printk.{
  Arg, word, text, to_long, hex_loop, hexdigits, digits, negative_digits, long_digits, reverse_onto,
  takes_word,
}

pub record UserFormat : Type 0 where
  pub in_format : Bool
  pub longarg : Bool
  pub pos : ℕ
  pub stored : List ℕ

abbrev pub buffer_size : ℕ
buffer_size = 1000

-- buffer[tail++] = c
unfoldable pub store_char : ℕ → UserFormat → Option UserFormat
store_char c u =
    if ltb (length u.stored) buffer_size
    then some (record u { stored = u.stored ++ c ∷ [] })
    else none

infixl 5 ◌>>=◌
unfoldable pub ◌>>=◌ : Option UserFormat → (UserFormat → Option UserFormat) → Option UserFormat
none >>= f = none
some u >>= f = f u

unfoldable pub store_all : List ℕ → UserFormat → Option UserFormat
store_all [] u = some u
store_all (c ∷ l) u = store_char c u >>= store_all l

-- longarg = 0, in_format = 0, behind `n` more places.
unfoldable pub close : ℕ → UserFormat → Option UserFormat
close n u = some (record u { longarg = false; in_format = false; pos = add64 u.pos n })

-- if (bits == 0) bits++, then decchar[bits - 1] down to decchar[0].
unfoldable pub decimal_digits : List ℕ → List ℕ
decimal_digits [] = 48 ∷ []
decimal_digits (d ∷ l) = reverse_onto (d ∷ l) []

unfoldable pub user_hex : ℕ → UserFormat → Option UserFormat
user_hex num u = let n = hexdigits u.longarg in store_all (hex_loop n num) u >>= close n

-- The digits are counted once more than they are, with the sign before them.
unfoldable pub user_signed : ℕ → UserFormat → Option UserFormat
user_signed num u =
    let minus = ltb num (2 ^ 63) in
    let shown = decimal_digits (long_digits (if minus then num else sub64 0 num)) in
    store_all (if minus then [] else 45 ∷ []) u
    >>= store_all shown
    >>= close (if minus then length shown + 1 else length shown + 2)

-- The digits are counted once less.
unfoldable pub user_unsigned : ℕ → UserFormat → Option UserFormat
user_unsigned num u =
    let shown =
      decimal_digits
        (if ltb num (2 ^ 63) then digits 20 num else negative_digits 20 (sub64 0 num)) in
    store_all shown u >>= close (length shown - 1)

-- The conversions that take a word: 'x', 'd', 'u', 'c'.
unfoldable pub user_word : ℕ → ℕ → UserFormat → Option UserFormat
user_word c w u =
    if c == 120
    then user_hex (to_long u.longarg w) u
    else if c == 100
    then user_signed (to_long u.longarg w) u
    else if c == 117
    then user_unsigned (to_long u.longarg w) u
    else store_all (w % 2 ^ 8 ∷ []) u >>= close 1

-- The arguments that are left go with the result.
unfoldable pub with_rest : List Arg → Option UserFormat → Option (UserFormat × List Arg)
with_rest vl none = none
with_rest vl (some u) = some (u, vl)

unfoldable pub user_convert : ℕ → List Arg → UserFormat → Option (UserFormat × List Arg)
user_convert c vl u =
    if c == 108
    then some (record u { longarg = true }, vl)
    else if takes_word c
    then elim vl [ word w ∷ rest ↦ with_rest rest (user_word c w u) | _ ↦ none ]
    else if c == 115
    then elim vl [ text s ∷ rest ↦ with_rest rest (store_all s u >>= close (length s)) | _ ↦ none ]
    else some (u, vl)

unfoldable pub plain_char : ℕ → UserFormat → Option UserFormat
plain_char c u = store_char c u >>= λ u'. some (record u' { pos = add64 u'.pos 1 })

unfoldable pub user_byte_of : ℕ → List Arg → UserFormat → Option (UserFormat × List Arg)
user_byte_of c vl u =
    if u.in_format
    then user_convert c vl u
    else if c == 37
    then some (record u { in_format = true }, vl)
    else with_rest vl (plain_char c u)

unfoldable pub user_loop : List ℕ → List Arg → UserFormat → Option UserFormat
user_loop [] vl u = some u
user_loop (c ∷ fmt) vl u = elim (user_byte_of c vl u) [
  | none ↦ none
  | some (u', vl') ↦ user_loop fmt vl' u'
]

abbrev pub empty_buffer : UserFormat
empty_buffer = record { in_format = false; longarg = false; pos = 0; stored = [] }

-- The bytes handed to the kernel, the NUL behind them included.
unfoldable pub user_vprintfmt : List ℕ → List Arg → Option (List ℕ)
user_vprintfmt fmt vl = elim (user_loop fmt vl empty_buffer >>= store_char 0) [
  | none ↦ none
  | some u ↦ some u.stored
]

-- The bytes, and the result, an `int`.
unfoldable pub printf : (ℕ → List ℕ → ℕ → ℕ) → List ℕ → List Arg → Option (List ℕ × ℕ)
printf answer fmt vl = elim (user_vprintfmt fmt vl) [
  | none ↦ none
  | some bytes ↦ some (bytes, answer 1 bytes (length bytes) % 2 ^ 32)
]
