-- ===== src/Paging/Space/Grow.antt =====
-- How a tree of tables grows, and what it leaves alone.
use simple_rv64os.Base.{ℕ, ◌+◌, ◌^◌, ◌<◌, ◌≤◌, ◌≡◌, ◌∙◌, false, none, some, List}
use simple_rv64os.Buddy.Take.{is_free}
use simple_rv64os.Paging.{Machine}
use simple_rv64os.Paging.Space.{look, Owner, IsSpace}
use simple_rv64os.Paging.Space.Page.{page_at, free_count}

-- A page in use that is no table stays so, and keeps its bytes.
abbrev pub DataKept : ℕ → Machine → Owner → Machine → Owner → Type 0
DataKept d m owner m' owner' =
    (p : ℕ)
    → p < 2 ^ d
    → is_free d m.buddy p ≡ false
    → owner (page_at p) ≡ none
    → (is_free d m'.buddy p ≡ false)
      × (owner' (page_at p) ≡ none)
      × ((b : ℕ) → page_at p ≤ b → b < page_at p + 4096 → m'.memory b ≡ m.memory b)

pub DataKept-trans :
    (d : ℕ) (m m1 m2 : Machine) (o o1 o2 : Owner)
    → DataKept d m o m1 o1
    → DataKept d m1 o1 m2 o2
    → DataKept d m o m2 o2
DataKept-trans d m m1 m2 o o1 o2 first second p within used data_page =
    let (used1, data1, same1) = first p within used data_page in
    let (used2, data2, same2) = second p within used1 data1 in
    (used2, data2, λ b lo hi. same2 b lo hi ∙ same1 b lo hi)

-- The tree has grown by one table at most, and the map from pages is as it was.
pub record Grows (d : ℕ) (m : Machine) (root : ℕ) (owner : Owner) (m' : Machine) (owner' : Owner)
    : Type 0 where
  pub space : IsSpace d m' root owner'
  pub same : (page : ℕ) → look 2 m'.memory root page ≡ look 2 m.memory root page
  pub tables : (t : ℕ) (path : List ℕ) → owner t ≡ some path → owner' t ≡ some path
  pub data_kept : DataKept d m owner m' owner'
  pub room : free_count (2 ^ d) d m.buddy ≤ 1 + free_count (2 ^ d) d m'.buddy
