-- ===== src/Buddy/Tree.antt =====
-- The bitmap of mm.c as a binary tree: node `i` has the children `2 i + 1` and `2 i + 2`, and a
-- node of depth `d` stands for `2 ^ d` pages. Indices here are plain numbers; `Fits` says that
-- the 64-bit ones of the code are the same.
use simple_rv64os.Base.{
  ℕ, zero, suc, ◌+◌, ◌-◌, ◌*◌, ◌/◌, ◌^◌, ◌≤◌, ◌<◌, ◌≡◌, refl, ◌⊎◌, inl, Bool, true, false, arith,
  ltb, ◌==◌, if◌then◌else◌, two-pow-suc, two-pow-pos,
}
use simple_rv64os.Buddy.{Bitmap, max_of, left_leaf, right_leaf, parent}

-- The subtree of a node of depth `d` has its indices, and twice its pages, below 2 ^ 60.
abbrev pub Fits : ℕ → ℕ → Type 0
Fits d i = (i + 2) * 2 ^ d ≤ 2 ^ 60

abbrev pub left : ℕ → ℕ
left i = 2 * i + 1

abbrev pub right : ℕ → ℕ
right i = 2 * i + 2

fits_halves :
    (i p q n : ℕ)
    → q ≡ 2 * p
    → (i + 2) * q ≤ n
    → ((2 * i + 1 + 2) * p ≤ n) × ((2 * i + 2 + 2) * p ≤ n)
fits_halves i p q n e h = let k : (i + 2) * (2 * p) ≤ n = rw (← e) h in (omega arith, omega arith)

pub Fits-left : (d i : ℕ) → Fits (suc d) i → Fits d (left i)
Fits-left d i h = (fits_halves i (2 ^ d) (2 ^ suc d) (2 ^ 60) (two-pow-suc d) h).0

pub Fits-right : (d i : ℕ) → Fits (suc d) i → Fits d (right i)
Fits-right d i h = (fits_halves i (2 ^ d) (2 ^ suc d) (2 ^ 60) (two-pow-suc d) h).1

pub factor-le : (a b c : ℕ) → 1 ≤ b → a * b ≤ c → a ≤ c
factor-le a b c h k = grind arith

pub Fits-index : (d i : ℕ) → Fits d i → i < 2 ^ 60
Fits-index d i h = let p = factor-le (i + 2) (2 ^ d) (2 ^ 60) (two-pow-pos d) h in omega arith

pub Fits-size : (d i : ℕ) → Fits d i → 2 * 2 ^ d ≤ 2 ^ 60
Fits-size d i h = omega arith

pub left_leaf_lem : (i : ℕ) → i < 2 ^ 60 → left_leaf i ≡ left i
unfolding left_leaf
left_leaf_lem i h = omega arith

pub right_leaf_lem : (i : ℕ) → i < 2 ^ 60 → right_leaf i ≡ right i
unfolding right_leaf
right_leaf_lem i h = omega arith

pub parent-left : (i : ℕ) → i < 2 ^ 60 → parent (left i) ≡ i
unfolding parent
parent-left i h = omega arith

pub parent-right : (i : ℕ) → i < 2 ^ 60 → parent (right i) ≡ i
unfolding parent
parent-right i h = omega arith

-- `j` is `i` or lies below it.
pub data Under (i : ℕ) : ℕ → Type 0 where
  here : {j : ℕ} → j ≡ i → Under i j
  up : {j : ℕ} → 0 < j → Under i ((j - 1) / 2) → Under i j

pub Under-le : (i j : ℕ) → Under i j → i ≤ j
Under-le i j (here e) = omega arith
Under-le i j (up p u) = omega (arith, Under-le i ((j - 1) / 2) u)

pub Under-self : (i : ℕ) → Under i i
Under-self i = here refl

pub Under-of_left : (i j : ℕ) → Under (left i) j → Under i j
Under-of_left i j (here e) = up (omega arith) (here (omega arith))
Under-of_left i j (up p u) = up p (Under-of_left i ((j - 1) / 2) u)

pub Under-of_right : (i j : ℕ) → Under (right i) j → Under i j
Under-of_right i j (here e) = up (omega arith) (here (omega arith))
Under-of_right i j (up p u) = up p (Under-of_right i ((j - 1) / 2) u)

-- The two subtrees of a node share no index.
pub Under-disjoint : (i j : ℕ) → Under (left i) j → Under (right i) j → ⊥
Under-disjoint i j (here e) (here e') = omega arith
Under-disjoint i j (here e) (up p u) = omega (arith, Under-le (right i) ((j - 1) / 2) u)
Under-disjoint i j (up p u) (here e) = omega (arith, Under-le (left i) ((j - 1) / 2) u)
Under-disjoint i j (up p u) (up q v) = Under-disjoint i ((j - 1) / 2) u v

-- What a node of two halves holds: the whole block if both are free, else the larger block.
abbrev pub combine : ℕ → ℕ → ℕ → ℕ
combine s l r = if l + r == s then s else max_of l r

-- Every node below `i` is free.
abbrev pub IsFull : Bitmap → ℕ → ℕ → Type 0
IsFull m zero i = m i ≡ 1
IsFull m (suc d) i = (m i ≡ 2 ^ suc d) × IsFull m d (left i) × IsFull m d (right i)

-- The bitmap below node `i` is well formed: a node combines its children, or is a block in use
-- above children that were left as they were, free.
abbrev pub IsTree : Bitmap → ℕ → ℕ → Type 0
IsTree m zero i = m i ≤ 1
IsTree m (suc d) i =
    IsTree m d (left i)
    × IsTree m d (right i)
    × ((m i ≡ combine (2 ^ suc d) (m (left i)) (m (right i)))
        ⊎ ((m i ≡ 0) × IsFull m d (left i) × IsFull m d (right i)))

-- Page `p` of the block of node `i` is free.
abbrev pub page_free : Bitmap → ℕ → ℕ → ℕ → Bool
page_free m zero i p = if m i == 0 then false else true
page_free m (suc d) i p =
    let l = page_free m d (left i) p in
    let r = page_free m d (right i) (p - 2 ^ d) in
    if m i == 0 then false else if ltb p (2 ^ d) then l else r

pub IsFull-value : (m : Bitmap) (d i : ℕ) → IsFull m d i → m i ≡ 2 ^ d
IsFull-value m zero i h = omega arith
IsFull-value m (suc d) i h = h.0

pub IsFull-IsTree : (m : Bitmap) (d i : ℕ) → IsFull m d i → IsTree m d i
IsFull-IsTree m zero i h = omega arith
IsFull-IsTree m (suc d) i h = (
  IsFull-IsTree m d (left i) h.1,
  IsFull-IsTree m d (right i) h.2,
  inl (
      ground (arith, two-pow-suc d, IsFull-value m d (left i) h.1, IsFull-value m d (right i) h.2)),
)

pub IsTree-le : (m : Bitmap) (d i : ℕ) → IsTree m d i → m i ≤ 2 ^ d
IsTree-le m zero i h = omega arith
IsTree-le m (suc d) i h =
    ground (arith, two-pow-suc d, IsTree-le m d (left i) h.0, IsTree-le m d (right i) h.1)

-- A node that holds its whole block has only free nodes below.
pub IsTree-IsFull : (m : Bitmap) (d i : ℕ) → IsTree m d i → m i ≡ 2 ^ d → IsFull m d i
IsTree-IsFull m zero i h e = omega arith
IsTree-IsFull m (suc d) i h e =
    let l = IsTree-le m d (left i) h.0 in
    let r = IsTree-le m d (right i) h.1 in
    let pos = two-pow-pos d in
    let double = two-pow-suc d in
    (
      e,
      IsTree-IsFull m d (left i) h.0 (ground arith),
      IsTree-IsFull m d (right i) h.1 (ground arith),
    )
