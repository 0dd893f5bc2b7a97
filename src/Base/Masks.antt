-- ===== src/Base/Masks.antt =====
-- Masks of ones, single bits, and bits of disjoint fields.
use Prim.Native.Nat.{ℕ, zero, suc, ◌+◌, ◌-◌, ◌*◌, ◌/◌, ◌%◌, ◌^◌, ◌≤◌, ◌<◌, bit_and, bit_or}
use mathlib.Core.Path.{◌≡◌, ap, ◌∙◌}
use native.Mathlib.Omega.{arith}
use simple_rv64os.Base.Order.{two-pow-suc, two-pow-pos}
use simple_rv64os.Base.Bits.{
  and_digit, or_digit, zero-and, zero-or, and-zero, or-zero, and_fields, or_fields,
}

-- x & (2 ^ k - 1) where x fits k bits, and x | (2 ^ k - 1).
pub and_ones : (k x : ℕ) → x < 2 ^ k → bit_and x (2 ^ k - 1) ≡ x
and_ones zero x h = omega (arith, and-zero x)
and_ones (suc k) x h = ground (
  arith,
  two-pow-suc k,
  two-pow-pos k,
  and_digit x (2 ^ suc k - 1),
  and_ones k (x / 2) (omega (arith, two-pow-suc k)),
)

pub or_ones : (k x : ℕ) → x < 2 ^ k → bit_or x (2 ^ k - 1) ≡ 2 ^ k - 1
or_ones zero x h = omega (arith, or-zero x)
or_ones (suc k) x h = ground (
  arith,
  two-pow-suc k,
  two-pow-pos k,
  or_digit x (2 ^ suc k - 1),
  or_ones k (x / 2) (omega (arith, two-pow-suc k)),
)

pub ones-or : (k x : ℕ) → x < 2 ^ k → bit_or (2 ^ k - 1) x ≡ 2 ^ k - 1
ones-or zero x h = omega (arith, zero-or x)
ones-or (suc k) x h = ground (
  arith,
  two-pow-suc k,
  two-pow-pos k,
  or_digit (2 ^ suc k - 1) x,
  ones-or k (x / 2) (omega (arith, two-pow-suc k)),
)

-- A number as two fields, the lower of k bits.
pub fields : (k x : ℕ) → (x ≡ x / 2 ^ k * 2 ^ k + x % 2 ^ k) × (x % 2 ^ k < 2 ^ k)
fields k x = ground (arith, two-pow-pos k)

-- x & (2 ^ k - 1) keeps the k low bits.
pub and_low : (k x : ℕ) → bit_and x (2 ^ k - 1) ≡ x % 2 ^ k
and_low k x =
    let (e, lt) = fields k x in
    let pos = two-pow-pos k in
    let mask : 2 ^ k - 1 ≡ 0 * 2 ^ k + (2 ^ k - 1) = omega arith in
    ap (λ t. bit_and t (2 ^ k - 1)) e
    ∙ ap (λ t. bit_and (x / 2 ^ k * 2 ^ k + x % 2 ^ k) t) mask
    ∙ and_fields k (x / 2 ^ k) (x % 2 ^ k) 0 (2 ^ k - 1) lt (omega arith)
    ∙ rw (and-zero (x / 2 ^ k)) (omega (arith, and_ones k (x % 2 ^ k) lt))

-- x & (m * 2 ^ k) drops the k low bits.
pub and_high : (k m x : ℕ) → bit_and x (m * 2 ^ k) ≡ bit_and (x / 2 ^ k) m * 2 ^ k
and_high k m x =
    let (e, lt) = fields k x in
    let mask : m * 2 ^ k ≡ m * 2 ^ k + 0 = omega arith in
    ap (λ t. bit_and t (m * 2 ^ k)) e
    ∙ ap (λ t. bit_and (x / 2 ^ k * 2 ^ k + x % 2 ^ k) t) mask
    ∙ and_fields k (x / 2 ^ k) (x % 2 ^ k) m 0 lt (two-pow-pos k)
    ∙ omega (arith, and-zero (x % 2 ^ k))

-- (q << k) | r is a sum where r fits k bits.
pub or_disjoint : (k q r : ℕ) → r < 2 ^ k → bit_or (q * 2 ^ k) r ≡ q * 2 ^ k + r
or_disjoint k q r h =
    let wide : q * 2 ^ k ≡ q * 2 ^ k + 0 = omega arith in
    let low : r ≡ 0 * 2 ^ k + r = omega arith in
    ap (λ t. bit_or t r) wide
    ∙ ap (λ t. bit_or (q * 2 ^ k + 0) t) low
    ∙ or_fields k q 0 0 r (two-pow-pos k) h
    ∙ rw (or-zero q, zero-or r)

-- `|` of a number over k low bits and a number that fits them.
pub or_low : (k x y : ℕ) → y < 2 ^ k → bit_or x y ≡ x / 2 ^ k * 2 ^ k + bit_or (x % 2 ^ k) y
or_low k x y h =
    let (e, lt) = fields k x in
    let low : y ≡ 0 * 2 ^ k + y = omega arith in
    ap (λ t. bit_or t y) e
    ∙ ap (λ t. bit_or (x / 2 ^ k * 2 ^ k + x % 2 ^ k) t) low
    ∙ or_fields k (x / 2 ^ k) (x % 2 ^ k) 0 y lt h
    ∙ rw (or-zero (x / 2 ^ k))

pub and_self : (k x : ℕ) → x ≤ k → bit_and x x ≡ x
and_self k zero h = zero-and 0
and_self zero (suc x) h = absurd (omega arith)
and_self (suc k) (suc x) h =
    omega (arith, and_digit (suc x) (suc x), and_self k (suc x / 2) (omega arith))
