-- ===== src/Paging/Space/Apart.antt =====
-- What the write of one entry of a table leaves alone.
use simple_rv64os.Base.{
  ℕ, ◌+◌, ◌*◌, ◌%◌, ◌^◌, ◌<◌, ◌≤◌, ◌≡◌, ◌≢◌, inl, inr, arith, ltb, Bool-cases, ltb→lt,
}
use simple_rv64os.Bytes.{Bytes, load64}
use simple_rv64os.Bytes.Words.{Outside, load64-same}
use simple_rv64os.Paging.Walk.{IsTable, entry-apart}
use simple_rv64os.Paging.Space.Page.{page_at}

pub page_at-IsTable : (p : ℕ) → p < 2 ^ 25 → IsTable (page_at p)
page_at-IsTable p lt = (omega arith, omega arith)

pub page_at-injective : (p q : ℕ) → page_at p ≡ page_at q → p ≡ q
page_at-injective p q e = omega arith

pub page-apart :
    (t i q b : ℕ)
    → IsTable t
    → i < 2 ^ 9
    → q % 4096 ≡ 0
    → t ≢ q
    → q ≤ b
    → b < q + 4096
    → Outside (t + 8 * i) b
page-apart t i q b (aligned, fits) lt start ne lo hi = elim (Bool-cases (ltb t q)) [
  | inl less ↦ inr (below (ltb→lt t q less))
  | inr more ↦ inl (above (ground arith))
]
  where
    below : t < q → t + 8 * i + 8 ≤ b
    below less = omega arith

    above : q < t → b < t + 8 * i
    above less = omega arith

pub entry-unequal :
    (t i j b : ℕ) → i ≢ j → t + 8 * j ≤ b → b < t + 8 * j + 8 → Outside (t + 8 * i) b
entry-unequal t i j b ne lo hi = elim (Bool-cases (ltb i j)) [
  | inl less ↦ inr (ground arith)
  | inr more ↦ inl (ground arith)
]

module _ (memory memory' : Bytes) (t i : ℕ) (table : IsTable t) (lt : i < 2 ^ 9)
    (others : (b : ℕ) → Outside (t + 8 * i) b → memory' b ≡ memory b) where
  pub page-kept : (q b : ℕ) → q % 4096 ≡ 0 → t ≢ q → q ≤ b → b < q + 4096 → memory' b ≡ memory b
  page-kept q b start ne lo hi = others b (page-apart t i q b table lt start ne lo hi)

  pub other-table :
      (s j : ℕ)
      → IsTable s
      → j < 2 ^ 9
      → t ≢ s
      → load64 memory' (s + 8 * j) ≡ load64 memory (s + 8 * j)
  other-table s j table' lt' ne =
      load64-same memory' memory (s + 8 * j)
        (λ b lo hi. others b (entry-apart t s i j table table' lt lt' ne b lo hi))

  pub other-entry : (j : ℕ) → i ≢ j → load64 memory' (t + 8 * j) ≡ load64 memory (t + 8 * j)
  other-entry j ne =
      load64-same memory' memory (t + 8 * j) (λ b lo hi. others b (entry-unequal t i j b ne lo hi))
