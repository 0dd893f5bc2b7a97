-- ===== src/Base/Arrays.antt =====
-- Arrays as maps from indices, with one element replaced.
use Prim.Native.Nat.{ℕ}
use mathlib.Core.Path.{◌≡◌, refl, fun_ext}
use mathlib.Core.Bool.{Bool, true, false}
use mathlib.Core.Logic.{◌≢◌}
use simple_rv64os.Base.Tests.{◌==◌, if◌then◌else◌, eq→==, ne→==}

unfoldable pub put {ℓ} : {A : Type ℓ} → (ℕ → A) → ℕ → A → ℕ → A
put f i v j = if i == j then v else f j

pub put-same {ℓ} : {A : Type ℓ} → (f : ℕ → A) (i : ℕ) (v : A) → put f i v i ≡ v
unfolding put
put-same f i v = rw (eq→== i i refl) refl

pub put-other {ℓ} : {A : Type ℓ} → (f : ℕ → A) (i : ℕ) (v : A) (j : ℕ) → i ≢ j → put f i v j ≡ f j
unfolding put
put-other f i v j ne = rw (ne→== i j ne) refl

-- The later of two writes to one place is what counts.
pub put-put {ℓ} : {A : Type ℓ} → (f : ℕ → A) (i : ℕ) (v w : A) → put (put f i v) i w ≡ put f i w
unfolding put
put-put {A = A} f i v w = fun_ext (λ j. go (i == j) (f j))
  where
    go : (b : Bool) (x : A) → (if b then w else if b then v else x) ≡ (if b then w else x)
    go true x = refl
    go false x = refl
