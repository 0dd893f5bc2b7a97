-- ===== src/Rand/Range.antt =====
-- Where rand writes, and what it returns.
use simple_rv64os.Base.{
  ℕ, zero, suc, ◌+◌, ◌%◌, ◌≤◌, ◌≡◌, refl, ◌∙◌, inl, inr, arith, ◌==◌, Bool-cases,
}
use simple_rv64os.Base.Arrays.{put-other}
use simple_rv64os.Rand.{Rand, seed, products, copies, sums, started, draw, rand}

-- One draw from a generator that has started: the number, the one element written, the place.
draw_lem :
    (g : Rand)
    → (1 ≤ (draw g).0)
      × ((draw g).0 ≤ 10)
      × ((draw g).1.t ≤ 656)
      × ((j : ℕ) → 1000 ≤ j → (draw g).1.r j ≡ g.r j)
unfolding draw
draw_lem g = (
  omega arith,
  omega arith,
  omega arith,
  λ j le. put-other g.r (g.t % 656 + 344) _ j (omega arith),
)

products-beyond : (left i : ℕ) (r : ℕ → ℕ) (j : ℕ) → i + left ≤ j → products left i r j ≡ r j
unfolding products
products-beyond zero i r j le = refl
products-beyond (suc left) i r j le =
    products-beyond left (i + 1) _ j (omega arith) ∙ put-other r i _ j (omega arith)

copies-beyond : (left i : ℕ) (r : ℕ → ℕ) (j : ℕ) → i + left ≤ j → copies left i r j ≡ r j
unfolding copies
copies-beyond zero i r j le = refl
copies-beyond (suc left) i r j le =
    copies-beyond left (i + 1) _ j (omega arith) ∙ put-other r i _ j (omega arith)

sums-beyond : (left i : ℕ) (r : ℕ → ℕ) (j : ℕ) → i + left ≤ j → sums left i r j ≡ r j
unfolding sums
sums-beyond zero i r j le = refl
sums-beyond (suc left) i r j le =
    sums-beyond left (i + 1) _ j (omega arith) ∙ put-other r i _ j (omega arith)

started-beyond : (g : Rand) (j : ℕ) → 344 ≤ j → (started g).r j ≡ g.r j
unfolding started
started-beyond g j le =
    sums-beyond 310 34 _ j (omega arith)
    ∙ copies-beyond 3 31 _ j (omega arith)
    ∙ products-beyond 30 1 _ j (omega arith)
    ∙ put-other g.r 0 seed j (omega arith)

-- rand returns a number from 1 to 10, keeps its place at 656 at most and writes nothing from the
-- thousandth element of its array on, which has 1000.
pub rand_lem :
    (g : Rand)
    → (1 ≤ (rand g).0)
      × ((rand g).0 ≤ 10)
      × ((rand g).1.t ≤ 656)
      × ((j : ℕ) → 1000 ≤ j → (rand g).1.r j ≡ g.r j)
unfolding rand
rand_lem g = elim (Bool-cases (g.initialize == 0)) [
  | inl first ↦
      let (lo, hi, place, beyond) = draw_lem (started g) in
      rw first (lo, hi, place, λ j le. beyond j le ∙ started-beyond g j (omega arith))
  | inr later ↦ rw later (draw_lem g)
]
