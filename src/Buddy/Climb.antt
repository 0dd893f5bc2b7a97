-- ===== src/Buddy/Climb.antt =====
-- The two upward loops of `buddy_free` find and give back the block of the recursion.
use simple_rv64os.Base.{
  ℕ, zero, suc, ◌+◌, ◌-◌, ◌*◌, ◌^◌, ◌≤◌, ◌<◌, ◌≡◌, refl, ◌∙◌, subst, inl, inr, true, false, arith,
  ltb, ◌==◌, if◌then◌else◌, two-pow-suc, Bool-cases, ne→==,
}
use simple_rv64os.Base.Word.{mul64}
use simple_rv64os.Buddy.{Bitmap, parent, find_block}
use simple_rv64os.Buddy.Tree.{
  left, right, Fits, Fits-left, Fits-right, Fits-index, Fits-size, parent-left, parent-right,
  page_free,
}
use simple_rv64os.Buddy.Room.{page_free-pos}
use simple_rv64os.Buddy.Release.{side, rest, leaf, block_index, block_exponent}

pub Fits-side : (d i p : ℕ) → Fits (suc d) i → Fits d (side d i p)
Fits-side d i p h = elim (Bool-cases (ltb p (2 ^ d))) [
  | inl t ↦ rw t (Fits-left d i h)
  | inr t ↦ rw t (Fits-right d i h)
]

pub parent-side : (d i p : ℕ) → i < 2 ^ 60 → (parent (side d i p) ≡ i) × (i < side d i p)
parent-side d i p h = elim (Bool-cases (ltb p (2 ^ d))) [
  | inl t ↦ rw t (parent-left i h, omega arith)
  | inr t ↦ rw t (parent-right i h, omega arith)
]

pub rest-lt : (d p : ℕ) → p < 2 ^ suc d → rest d p < 2 ^ d
rest-lt d p h = ground (arith, two-pow-suc d)

-- The leaf of page `p`, counted from the first leaf below node `i`.
pub leaf_lem : (d i p : ℕ) → p < 2 ^ d → leaf d i p + 1 ≡ (i + 1) * 2 ^ d + p
unfolding leaf
leaf_lem zero i p h = omega arith
leaf_lem (suc d) i p h =
    let ih = leaf_lem d (side d i p) (rest d p) (rest-lt d p h) in
    rw (two-pow-suc d) (elim (Bool-cases (ltb p (2 ^ d))) [
      | inl t ↦
          let ih' =
            subst
              (λ b.
                leaf d (side d i p) (rest d p) + 1
                ≡ ((if b then left i else right i) + 1) * 2 ^ d + (if b then p else p - 2 ^ d))
              t ih in
          omega (arith, ih')
      | inr t ↦
          let ih' =
            subst
              (λ b.
                leaf d (side d i p) (rest d p) + 1
                ≡ ((if b then left i else right i) + 1) * 2 ^ d + (if b then p else p - 2 ^ d))
              t ih in
          let ge : 2 ^ d ≤ p = ground arith in omega (arith, ih')
    ])

-- The loops with fuel for every index up to `i`.
abbrev pub find : Bitmap → ℕ → ℕ → ℕ × ℕ
find m s i = find_block (suc i) m s i

find_fuel :
    (f g : ℕ) (m : Bitmap) (s i : ℕ)
    → i < f
    → i < g
    → i < 2 ^ 60
    → find_block f m s i ≡ find_block g m s i
unfolding find_block parent
find_fuel zero g m s i p q b = absurd (omega arith)
find_fuel (suc f) zero m s i p q b = absurd (omega arith)
find_fuel (suc f) (suc g) m s i p q b = elim (Bool-cases (m i == 0)) [
  | inl z ↦ rw z
  | inr z ↦ elim (Bool-cases (i == 0)) [
    | inl e ↦ rw (z, e)
    | inr e ↦
        rw (z, e)
          (find_fuel f g m (mul64 s 2) (parent i) (ground arith) (ground arith) (ground arith))
  ]
]

find_step :
    (m : Bitmap) (s c i : ℕ)
    → c < 2 ^ 60
    → i < c
    → parent c ≡ i
    → 1 ≤ m c
    → find m s c ≡ find m (mul64 s 2) i
unfolding find_block
find_step m s c i b lt e pos =
    rw (ne→== (m c) 0 (omega arith), ne→== c 0 (omega arith), e)
      (find_fuel c (suc i) m (mul64 s 2) i (omega arith) (omega arith) (omega arith))

pub double_word : (d i : ℕ) → Fits (suc d) i → mul64 (2 ^ d) 2 ≡ 2 ^ suc d
double_word d i h = omega (arith, Fits-size (suc d) i h, two-pow-suc d)

find_above :
    (m : Bitmap) (d i p : ℕ)
    → Fits (suc d) i
    → page_free m d (side d i p) (rest d p) ≡ true
    → find m (2 ^ d) (side d i p) ≡ find m (2 ^ suc d) i
find_above m d i p h free =
    let b = Fits-index d (side d i p) (Fits-side d i p h) in
    let (e, lt) = parent-side d i p (Fits-index (suc d) i h) in
    subst (λ x. find m (2 ^ d) (side d i p) ≡ find m x i) (double_word d i h)
      (find_step m (2 ^ d) (side d i p) i b lt e (page_free-pos m d (side d i p) (rest d p) free))

-- Above a free page the loop climbs on.
find_free :
    (m : Bitmap) (d i p : ℕ)
    → Fits d i
    → p < 2 ^ d
    → page_free m d i p ≡ true
    → find m 1 (leaf d i p) ≡ find m (2 ^ d) i
unfolding leaf
find_free m zero i p h lt free = refl
find_free m (suc d) i p h lt free =
    let below : page_free m d (side d i p) (rest d p) ≡ true = ground arith in
    find_free m d (side d i p) (rest d p) (Fits-side d i p h) (rest-lt d p lt) below
    ∙ find_above m d i p h below

-- From the leaf of a page in use the loop ends at the block that the page lies in.
pub find_used :
    (m : Bitmap) (d i p : ℕ)
    → Fits d i
    → p < 2 ^ d
    → page_free m d i p ≡ false
    → find m 1 (leaf d i p) ≡ (block_index m d i p, 2 ^ block_exponent m d i p)
unfolding leaf block_index block_exponent
find_used m zero i p h lt used = unfold find_block in ground arith
find_used m (suc d) i p h lt used = elim (Bool-cases (page_free m d (side d i p) (rest d p))) [
  | inl t ↦
      let z : (m i == 0) ≡ true = ground arith in
      find_free m d (side d i p) (rest d p) (Fits-side d i p h) (rest-lt d p lt) t
      ∙ find_above m d i p h t
      ∙ rw t (unfold find_block in rw z)
  | inr t ↦ rw t (find_used m d (side d i p) (rest d p) (Fits-side d i p h) (rest-lt d p lt) t)
]
