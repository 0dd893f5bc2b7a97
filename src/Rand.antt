-- ===== src/Rand.antt =====
-- The generator of lib/rand.c. An `int` is its 32-bit pattern; sums wrap around, as gcc's do on this
-- machine. The first 31 numbers are remainders of products of numbers that are not negative.
pub mod Range
mod Examples
use simple_rv64os.Base.{
  ℕ, zero, suc, ◌+◌, ◌-◌, ◌*◌, ◌%◌, ◌^◌, Bool, true, false, ltb, ◌==◌, if◌then◌else◌,
}
use simple_rv64os.Base.Arrays.{put}

pub record Rand : Type 0 where
  pub initialize : ℕ
  pub r : ℕ → ℕ
  pub t : ℕ

abbrev pub seed : ℕ
seed = 5

abbrev pub modulus : ℕ
modulus = 2147483647

-- A sum of two `int`.
abbrev pub add_int : ℕ → ℕ → ℕ
add_int a b = (a + b) % 2 ^ 32

-- An `int` as a `uint64`.
abbrev pub widen_int : ℕ → ℕ
widen_int a = if ltb a (2 ^ 31) then a else a + (2 ^ 64 - 2 ^ 32)

-- r[i] for i from 1 to 30.
unfoldable pub products : ℕ → ℕ → (ℕ → ℕ) → ℕ → ℕ
products zero i r = r
products (suc left) i r = products left (i + 1) (put r i (16807 * r (i - 1) % modulus))

-- r[i] for i from 31 to 33.
unfoldable pub copies : ℕ → ℕ → (ℕ → ℕ) → ℕ → ℕ
copies zero i r = r
copies (suc left) i r = copies left (i + 1) (put r i (r (i - 31)))

-- r[i] for i from 34 to 343.
unfoldable pub sums : ℕ → ℕ → (ℕ → ℕ) → ℕ → ℕ
sums zero i r = r
sums (suc left) i r = sums left (i + 1) (put r i (add_int (r (i - 31)) (r (i - 3))))

unfoldable pub started : Rand → Rand
started g = record g {
  r = sums 310 34 (copies 3 31 (products 30 1 (put g.r 0 seed)));
  initialize = 1;
}

-- What follows the initialisation; the number, and the generator.
unfoldable pub draw : Rand → ℕ × Rand
draw g =
    let t = g.t % 656 in
    let next = add_int (g.r (t + 344 - 31)) (g.r (t + 344 - 3)) in
    let r' = put g.r (t + 344) next in
    (widen_int (r' (t + 1 - 1 + 344)) % 10 + 1, record g { r = r'; t = t + 1 })

unfoldable pub rand : Rand → ℕ × Rand
rand g = draw (if g.initialize == 0 then started g else g)
