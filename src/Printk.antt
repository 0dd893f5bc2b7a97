-- ===== src/Printk.antt =====
-- puti and vprintfmt, the formatter behind printk, of lib/printk.c. The bytes given to `putch` are a list, a
-- format is the bytes before its NUL, and the variable arguments are a list of machine words and of
-- strings. `none` is an argument that is missing or of the other kind, which C leaves undefined.
-- The loops over the decimal digits have 20 rounds, the most a 64-bit number needs.
pub mod Digits
pub mod Hex
pub mod Line
pub mod Count
mod Examples
use simple_rv64os.Base.{
  ℕ, zero, suc, ◌+◌, ◌-◌, ◌*◌, ◌/◌, ◌%◌, ◌^◌, bit_and, Bool, true, false, Option, none, some, List,
  [], ◌∷◌, ◌++◌, ltb, leb, ◌==◌, if◌then◌else◌,
}
use simple_rv64os.Base.Lists.{length}
use simple_rv64os.Base.Word.{add64, sub64}

pub data Arg : Type 0 where
  word : ℕ → Arg
  text : List ℕ → Arg

pub record Format : Type 0 where
  pub in_format : Bool
  pub longarg : Bool
  pub pos : ℕ
  pub out : List ℕ

-- longarg ? va_arg(vl, long) : va_arg(vl, int), as a `long`.
unfoldable pub to_long : Bool → ℕ → ℕ
to_long true w = w % 2 ^ 64
to_long false w = let c = w % 2 ^ 32 in if ltb c (2 ^ 31) then c else c + (2 ^ 64 - 2 ^ 32)

unfoldable pub hexchar : ℕ → ℕ
hexchar hex = if ltb hex 10 then 48 + hex else 97 + hex - 10

-- The half bytes below the given one, from the highest.
unfoldable pub hex_loop : ℕ → ℕ → List ℕ
hex_loop zero num = []
hex_loop (suc halfbyte) num =
    hexchar (bit_and (num / 2 ^ (4 * halfbyte)) 15) ∷ hex_loop halfbyte num

unfoldable pub hexdigits : Bool → ℕ
hexdigits longarg = 2 * (if longarg then 8 else 4)

-- decchar[0] to decchar[bits - 1] for a `long` that is not negative.
unfoldable pub digits : ℕ → ℕ → List ℕ
digits zero tmp = []
digits (suc left) tmp =
    let rest = digits left (tmp / 10) in if tmp == 0 then [] else (tmp % 10 + 48) ∷ rest

-- The same for a negative one of the given magnitude, whose remainders are negative.
unfoldable pub negative_digits : ℕ → ℕ → List ℕ
negative_digits zero tmp = []
negative_digits (suc left) tmp =
    let rest = negative_digits left (tmp / 10) in if tmp == 0 then [] else (48 - tmp % 10) ∷ rest

unfoldable pub reverse_onto : List ℕ → List ℕ → List ℕ
reverse_onto [] l = l
reverse_onto (x ∷ k) l = reverse_onto k (x ∷ l)

-- decchar[bits] down to decchar[0]: the buffer starts as '0' and then NUL.
unfoldable pub from_last : List ℕ → List ℕ
from_last [] = 48 ∷ []
from_last (x ∷ l) = 0 ∷ reverse_onto (x ∷ l) []

unfoldable pub emit : Format → List ℕ → ℕ → Format
emit f bytes n = record f { out = f.out ++ bytes; pos = add64 f.pos n }

-- longarg = 0, in_format = 0
unfoldable pub finish : Format → Format
finish f = record f { longarg = false; in_format = false }

-- The digits of a `long` as tmp % 10 + '0' gives them, the last first; a negative one, such as the least
-- after its negation has wrapped, has bytes below '0'.
unfoldable pub long_digits : ℕ → List ℕ
long_digits num = if ltb num (2 ^ 63) then digits 20 num else negative_digits 20 (sub64 0 num)

unfoldable pub put_signed : Format → ℕ → Format
put_signed f num =
    let minus = ltb num (2 ^ 63) in
    let f' = if minus then f else emit f (45 ∷ []) 1 in
    let buffer = long_digits (if minus then num else sub64 0 num) in
    finish (emit f' (from_last buffer) (length buffer + 1))

unfoldable pub put_unsigned : Format → ℕ → Format
put_unsigned f num =
    let buffer = if ltb num (2 ^ 63) then digits 20 num else negative_digits 20 (sub64 0 num) in
    finish (emit f (from_last buffer) (length buffer + 1))

unfoldable pub put_hex : Format → ℕ → Format
put_hex f num = let n = hexdigits f.longarg in finish (emit f (hex_loop n num) n)

-- The switch on a byte after '%', for the conversions that take a word: 'x', 'd', 'u', 'c'.
unfoldable pub convert_word : Format → ℕ → ℕ → Format
convert_word f c w =
    if c == 120
    then put_hex f (to_long f.longarg w)
    else if c == 100
    then put_signed f (to_long f.longarg w)
    else if c == 117
    then put_unsigned f (to_long f.longarg w)
    else finish (emit f (w % 2 ^ 8 ∷ []) 1)

abbrev pub takes_word : ℕ → Bool
takes_word c =
    if c == 120 then true else if c == 100 then true else if c == 117 then true else c == 99

unfoldable pub convert : Format → ℕ → List Arg → Option (Format × List Arg)
convert f c vl =
    if c == 108
    then some (record f { longarg = true }, vl)
    else if takes_word c
    then elim vl [ word w ∷ rest ↦ some (convert_word f c w, rest) | _ ↦ none ]
    else if c == 115
    then elim vl [ text s ∷ rest ↦ some (finish (emit f s (length s)), rest) | _ ↦ none ]
    else some (f, vl)

-- One byte of the format.
unfoldable pub format_byte : Format → ℕ → List Arg → Option (Format × List Arg)
format_byte f c vl =
    if f.in_format
    then convert f c vl
    else if c == 37
    then some (record f { in_format = true }, vl)
    else some (emit f (c ∷ []) 1, vl)

unfoldable pub format_loop : Format → List ℕ → List Arg → Option Format
format_loop f [] vl = some f
format_loop f (c ∷ fmt) vl = elim (format_byte f c vl) [
  | none ↦ none
  | some (f', vl') ↦ format_loop f' fmt vl'
]

-- The bytes printed and the result, an `int`.
unfoldable pub result_of : Option Format → Option (List ℕ × ℕ)
result_of none = none
result_of (some f) = some (f.out, f.pos % 2 ^ 32)

abbrev pub initial : Format
initial = record { in_format = false; longarg = false; pos = 0; out = [] }

unfoldable pub vprintfmt : List ℕ → List Arg → Option (List ℕ × ℕ)
vprintfmt fmt vl = result_of (format_loop initial fmt vl)

-- x, an `int`, in decimal on a line of its own; the least `int`, whose negation C leaves undefined, wraps.
unfoldable pub puti : ℕ → List ℕ
puti x =
    let up = ltb x (2 ^ 31) in
    let num_buf =
      if x == 2 ^ 31 then negative_digits 20 x else digits 20 (if up then x else 2 ^ 32 - x) in
    (if x == 0 then 48 ∷ [] else [])
    ++ (if up then [] else 45 ∷ [])
    ++ reverse_onto num_buf (10 ∷ [])
