-- ===== src/Base/Bits.antt =====
-- C's `&` and `|` on unsigned numbers: masks, fields and shifts as arithmetic.
use Prim.Native.Nat.{
  ℕ, zero, suc, ◌+◌, ◌*◌, ◌/◌, ◌%◌, ◌^◌, ◌≤◌, ◌<◌, min, max, bit_and, bit_or, digits,
  bit_and-bitwise, bit_or-bitwise,
}
use mathlib.Core.Path.{◌≡◌, refl, sym, ap, ◌∙◌}
use native.Mathlib.Omega.{arith}
use simple_rv64os.Base.Order.{two-pow-suc}

-- The native operations recur with a count of digits; any count that is large enough will do.
rounds_irrelevant :
    (zeros : ℕ → ℕ) (op : ℕ → ℕ → ℕ) (k l x y : ℕ)
    → x ≤ k
    → x ≤ l
    → digits zeros op k x y ≡ digits zeros op l x y
rounds_irrelevant zeros op k l zero y hk hl = from_zero k ∙ sym (from_zero l)
  where
    from_zero : (j : ℕ) → digits zeros op j 0 y ≡ zeros y
    from_zero zero = refl
    from_zero (suc j) = refl
rounds_irrelevant zeros op (suc k) (suc l) (suc x) y hk hl =
    ap (λ t. t * 2 + op (suc x % 2) (y % 2))
      (rounds_irrelevant zeros op k l (suc x / 2) (y / 2) (omega arith) (omega arith))
rounds_irrelevant zeros op k l x y hk hl = absurd (omega arith)

-- One digit of `&`, and of `|`.
pub and_digit : (x y : ℕ) → bit_and x y ≡ 2 * bit_and (x / 2) (y / 2) + min (x % 2) (y % 2)
and_digit zero y = omega (arith, bit_and-bitwise 0 y, bit_and-bitwise 0 (y / 2))
and_digit (suc x) y = omega (
  arith,
  bit_and-bitwise (suc x) y,
  bit_and-bitwise (suc x / 2) (y / 2),
  rounds_irrelevant (λ b. 0) min x (suc x / 2) (suc x / 2) (y / 2) (omega arith) (omega arith),
)

pub or_digit : (x y : ℕ) → bit_or x y ≡ 2 * bit_or (x / 2) (y / 2) + max (x % 2) (y % 2)
or_digit zero y = omega (arith, bit_or-bitwise 0 y, bit_or-bitwise 0 (y / 2))
or_digit (suc x) y = omega (
  arith,
  bit_or-bitwise (suc x) y,
  bit_or-bitwise (suc x / 2) (y / 2),
  rounds_irrelevant (λ b. b) max x (suc x / 2) (suc x / 2) (y / 2) (omega arith) (omega arith),
)

pub zero-and : (y : ℕ) → bit_and 0 y ≡ 0
zero-and y = bit_and-bitwise 0 y

pub zero-or : (y : ℕ) → bit_or 0 y ≡ y
zero-or y = bit_or-bitwise 0 y

and-zero_below : (k x : ℕ) → x ≤ k → bit_and x 0 ≡ 0
and-zero_below zero x h = omega (arith, zero-and 0, ap (λ t. bit_and t 0) (at_zero x h))
  where
    at_zero : (t : ℕ) → t ≤ 0 → t ≡ 0
    at_zero t h = omega arith
and-zero_below (suc k) zero h = zero-and 0
and-zero_below (suc k) (suc x) h =
    omega (arith, and_digit (suc x) 0, and-zero_below k (suc x / 2) (omega arith))

pub and-zero : (x : ℕ) → bit_and x 0 ≡ 0
and-zero x = and-zero_below x x (omega arith)

or-zero_below : (k x : ℕ) → x ≤ k → bit_or x 0 ≡ x
or-zero_below k zero h = zero-or 0
or-zero_below zero (suc x) h = absurd (omega arith)
or-zero_below (suc k) (suc x) h =
    omega (arith, or_digit (suc x) 0, or-zero_below k (suc x / 2) (omega arith))

pub or-zero : (x : ℕ) → bit_or x 0 ≡ x
or-zero x = or-zero_below x x (omega arith)

halve : (q k : ℕ) → q * 2 ^ suc k ≡ 2 * (q * 2 ^ k)
halve q k = omega (arith, ap (λ (t : ℕ). q * t) (two-pow-suc k))

-- Both operations work on two fields of bits apart.
pub and_fields :
    (k a b c d : ℕ)
    → b < 2 ^ k
    → d < 2 ^ k
    → bit_and (a * 2 ^ k + b) (c * 2 ^ k + d) ≡ bit_and a c * 2 ^ k + bit_and b d
and_fields zero a b c d hb hd = ground (arith, zero-and 0)
and_fields (suc k) a b c d hb hd = ground (
  arith,
  two-pow-suc k,
  halve a k,
  halve c k,
  halve (bit_and a c) k,
  and_digit (a * 2 ^ suc k + b) (c * 2 ^ suc k + d),
  and_digit b d,
  and_fields k a (b / 2) c (d / 2) (omega arith) (omega arith),
)

pub or_fields :
    (k a b c d : ℕ)
    → b < 2 ^ k
    → d < 2 ^ k
    → bit_or (a * 2 ^ k + b) (c * 2 ^ k + d) ≡ bit_or a c * 2 ^ k + bit_or b d
or_fields zero a b c d hb hd = ground (arith, zero-or 0)
or_fields (suc k) a b c d hb hd = ground (
  arith,
  two-pow-suc k,
  halve a k,
  halve c k,
  halve (bit_or a c) k,
  or_digit (a * 2 ^ suc k + b) (c * 2 ^ suc k + d),
  or_digit b d,
  or_fields k a (b / 2) c (d / 2) (omega arith) (omega arith),
)
