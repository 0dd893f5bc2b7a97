-- ===== src/Base/Lists.antt =====
-- The length of a list in native numbers.
use Prim.Native.Nat.{ℕ, ◌+◌}
use mathlib.Core.Path.{◌≡◌}
use mathlib.Core.List.{List, [], ◌∷◌, ◌++◌}
use native.Mathlib.Omega.{arith}

unfoldable pub length {ℓ} : {A : Type ℓ} → List A → ℕ
length [] = 0
length (x ∷ l) = 1 + length l

pub length-++ {ℓ} : {A : Type ℓ} → (l k : List A) → length (l ++ k) ≡ length l + length k
unfolding length
length-++ [] k = omega arith
length-++ (x ∷ l) k = omega (arith, length-++ l k)
