-- ===== src/Base/Order.antt =====
-- Powers of two, and the order of the native numbers under products.
use mathlib.Core.Path.{subst}
use Prim.Native.Nat.{ℕ, zero, suc, ◌+◌, ◌-◌, ◌*◌, ◌^◌, ◌≤◌}
use mathlib.Core.Path.{◌≡◌}
use native.Mathlib.Nat.{pow-suc, one-le-pow}
use native.Mathlib.Omega.{arith}

pub two-pow-suc : (k : ℕ) → 2 ^ suc k ≡ 2 * 2 ^ k
two-pow-suc k = omega (arith, pow-suc 2 k)

pub two-pow-pos : (k : ℕ) → 1 ≤ 2 ^ k
two-pow-pos k = one-le-pow k 2 (omega arith)

pub pow_add : (a b : ℕ) → 2 ^ (a + b) ≡ 2 ^ a * 2 ^ b
pow_add zero b = let e : 0 + b ≡ b = omega arith in rw e (omega arith)
pow_add (suc a) b =
    let e : suc a + b ≡ suc (a + b) = omega arith in
    rw (e, two-pow-suc (a + b), two-pow-suc a) (omega (arith, pow_add a b))

pub pow-le : (l w : ℕ) → l ≤ w → 2 ^ l ≤ 2 ^ w
pow-le l w h =
    let e : l + (w - l) ≡ w = omega arith in
    let split : 2 ^ w ≡ 2 ^ l * 2 ^ (w - l) =
      subst (λ t. 2 ^ t ≡ 2 ^ l * 2 ^ (w - l)) e (pow_add l (w - l)) in
    grind (arith, two-pow-pos (w - l))
