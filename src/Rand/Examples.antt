-- ===== src/Rand/Examples.antt =====
-- rand from its initial state.
use simple_rv64os.Base.{ℕ, ◌≤◌, ◌≡◌}
use simple_rv64os.Rand.{Rand, rand}
use simple_rv64os.Rand.Range.{rand_lem}

abbrev new : Rand
new = record { initialize = 0; r = λ i. 0; t = 0 }

rand_lem_example :
    (1 ≤ (rand new).0)
    × ((rand new).0 ≤ 10)
    × ((rand new).1.t ≤ 656)
    × ((j : ℕ) → 1000 ≤ j → (rand new).1.r j ≡ 0)
rand_lem_example = rand_lem new
