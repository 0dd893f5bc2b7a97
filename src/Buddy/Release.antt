-- ===== src/Buddy/Release.antt =====
-- `buddy_free` as a recursion down the tree to the block that page `p` lies in.
use simple_rv64os.Base.{
  ℕ, zero, suc, ◌+◌, ◌-◌, ◌^◌, ◌≡◌, sym, subst, inl, inr, true, false, arith, ltb, if◌then◌else◌,
  two-pow-suc, two-pow-pos, Bool-cases,
}
use simple_rv64os.Buddy.{Bitmap, upd}
use simple_rv64os.Buddy.Tree.{left, right, IsTree, page_free, combine, IsFull-value}
use simple_rv64os.Buddy.Local.{
  Frame, IsTree-Same, Frame-Same-left, Frame-Same-right, upd-Same-left, upd-Same-right, upd-Frame,
}
use simple_rv64os.Buddy.Alloc.{Frame-left, Frame-right}
use simple_rv64os.Buddy.Room.{page_free-pos}

-- The child of `i` whose half holds page `p`, and the page in that half.
abbrev pub side : ℕ → ℕ → ℕ → ℕ
side d i p = if ltb p (2 ^ d) then left i else right i

abbrev pub rest : ℕ → ℕ → ℕ
rest d p = if ltb p (2 ^ d) then p else p - 2 ^ d

unfoldable pub leaf : ℕ → ℕ → ℕ → ℕ
leaf zero i p = i
leaf (suc d) i p = leaf d (side d i p) (rest d p)

-- The node of the block in use that page `p` lies in: the last one above which nothing is free.
unfoldable pub block_index : Bitmap → ℕ → ℕ → ℕ → ℕ
block_index m zero i p = i
block_index m (suc d) i p =
    let below = block_index m d (side d i p) (rest d p) in
    if page_free m d (side d i p) (rest d p) then i else below

unfoldable pub block_exponent : Bitmap → ℕ → ℕ → ℕ → ℕ
block_exponent m zero i p = 0
block_exponent m (suc d) i p =
    let below = block_exponent m d (side d i p) (rest d p) in
    if page_free m d (side d i p) (rest d p) then suc d else below

unfoldable pub block_start : Bitmap → ℕ → ℕ → ℕ → ℕ
block_start m zero i p = 0
block_start m (suc d) i p =
    let below = block_start m d (side d i p) (rest d p) in
    if page_free m d (side d i p) (rest d p)
    then 0
    else below + (if ltb p (2 ^ d) then 0 else 2 ^ d)

abbrev pub rejoin : Bitmap → ℕ → ℕ → Bitmap
rejoin m d i = upd m i (combine (2 ^ suc d) (m (left i)) (m (right i)))

unfoldable pub release : Bitmap → ℕ → ℕ → ℕ → Bitmap
release m zero i p = upd m i 1
release m (suc d) i p =
    let below = release m d (side d i p) (rest d p) in
    if page_free m d (side d i p) (rest d p) then upd m i (2 ^ suc d) else rejoin below d i

pub release-whole :
    (m : Bitmap) (d i p : ℕ)
    → page_free m d (side d i p) (rest d p) ≡ true
    → release m (suc d) i p ≡ upd m i (2 ^ suc d)
unfolding release
release-whole m d i p e = rw e

pub release-part :
    (m : Bitmap) (d i p : ℕ)
    → page_free m d (side d i p) (rest d p) ≡ false
    → release m (suc d) i p ≡ rejoin (release m d (side d i p) (rest d p)) d i
unfolding release
release-part m d i p e = rw e

Frame-side : (m m' : Bitmap) (d i p v : ℕ) → Frame m m' (side d i p) → Frame m (upd m' i v) i
Frame-side m m' d i p v f = elim (Bool-cases (ltb p (2 ^ d))) [
  | inl t ↦ Frame-left m m' i v (subst (λ b. Frame m m' (if b then left i else right i)) t f)
  | inr t ↦ Frame-right m m' i v (subst (λ b. Frame m m' (if b then left i else right i)) t f)
]

pub release-Frame : (m : Bitmap) (d i p : ℕ) → Frame m (release m d i p) i
release-Frame m zero i p = unfold release in upd-Frame m i 1
release-Frame m (suc d) i p = elim (Bool-cases (page_free m d (side d i p) (rest d p))) [
  | inl t ↦ subst (λ x. Frame m x i) (sym (release-whole m d i p t)) (upd-Frame m i (2 ^ suc d))
  | inr t ↦
      subst (λ x. Frame m x i) (sym (release-part m d i p t))
        (Frame-side m _ d i p _ (release-Frame m d (side d i p) (rest d p)))
]

-- A node joined from well-formed children is well formed.
pub rejoin-IsTree :
    (m : Bitmap) (d i : ℕ)
    → IsTree m d (left i)
    → IsTree m d (right i)
    → IsTree (rejoin m d i) (suc d) i
rejoin-IsTree m d i l r =
    let v = combine (2 ^ suc d) (m (left i)) (m (right i)) in
    (
      IsTree-Same m (upd m i v) d (left i) (upd-Same-left m i v) l,
      IsTree-Same m (upd m i v) d (right i) (upd-Same-right m i v) r,
      inl (ground arith),
    )

-- A page in use in the block of `i` whose half is free: the node is a block in use as a whole.
pub used_whole :
    (m : Bitmap) (d i p : ℕ)
    → IsTree m (suc d) i
    → page_free m (suc d) i p ≡ false
    → page_free m d (side d i p) (rest d p) ≡ true
    → (m i ≡ 0) × (m (left i) ≡ 2 ^ d) × (m (right i) ≡ 2 ^ d)
used_whole m d i p h used free =
    let double = two-pow-suc d in
    let pos = two-pow-pos d in
    let some_free = page_free-pos m d (side d i p) (rest d p) free in
    let zero_top : m i ≡ 0 = ground arith in
    elim h.2 [
      | inl e ↦
          absurd (elim (Bool-cases (ltb p (2 ^ d))) [ inl t ↦ ground arith | inr t ↦ ground arith ])
      | inr u ↦ (zero_top, IsFull-value m d (left i) u.1, IsFull-value m d (right i) u.2)
    ]

pub release-side :
    (m : Bitmap) (d i p : ℕ)
    → IsTree m (suc d) i
    → IsTree (release m d (side d i p) (rest d p)) d (side d i p)
    → let m' = release m d (side d i p) (rest d p) in IsTree m' d (left i) × IsTree m' d (right i)
release-side m d i p h s =
    let m' = release m d (side d i p) (rest d p) in
    let f = release-Frame m d (side d i p) (rest d p) in
    elim (Bool-cases (ltb p (2 ^ d))) [
      | inl t ↦
          let f' = subst (λ b. Frame m m' (if b then left i else right i)) t f in
          (
            subst (λ b. IsTree m' d (if b then left i else right i)) t s,
            IsTree-Same m m' d (right i) (Frame-Same-right m m' i f') h.1,
          )
      | inr t ↦
          let f' = subst (λ b. Frame m m' (if b then left i else right i)) t f in
          (
            IsTree-Same m m' d (left i) (Frame-Same-left m m' i f') h.0,
            subst (λ b. IsTree m' d (if b then left i else right i)) t s,
          )
    ]

pub IsTree-side : (m : Bitmap) (d i p : ℕ) → IsTree m (suc d) i → IsTree m d (side d i p)
IsTree-side m d i p h = elim (Bool-cases (ltb p (2 ^ d))) [
  | inl t ↦ subst (λ b. IsTree m d (if b then left i else right i)) (sym t) h.0
  | inr t ↦ subst (λ b. IsTree m d (if b then left i else right i)) (sym t) h.1
]

-- Giving a block back keeps the bitmap well formed.
pub release-IsTree :
    (m : Bitmap) (d i p : ℕ)
    → IsTree m d i
    → page_free m d i p ≡ false
    → IsTree (release m d i p) d i
release-IsTree m zero i p h used = unfold release in ground arith
release-IsTree m (suc d) i p h used = elim (Bool-cases (page_free m d (side d i p) (rest d p))) [
  | inl t ↦
      let (z, l, r) = used_whole m d i p h used t in
      subst (λ x. IsTree x (suc d) i) (sym (release-whole m d i p t))
        (
          IsTree-Same m _ d (left i) (upd-Same-left m i (2 ^ suc d)) h.0,
          IsTree-Same m _ d (right i) (upd-Same-right m i (2 ^ suc d)) h.1,
          inl (ground (arith, two-pow-suc d)),
        )
  | inr t ↦
      let s =
        release-side m d i p h
          (release-IsTree m d (side d i p) (rest d p) (IsTree-side m d i p h) t) in
      subst (λ x. IsTree x (suc d) i) (sym (release-part m d i p t))
        (rejoin-IsTree (release m d (side d i p) (rest d p)) d i s.0 s.1)
]
