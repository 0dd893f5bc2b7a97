-- ===== src/Buddy/Freed.antt =====
-- Which pages giving a block back changes.
use simple_rv64os.Base.{
  ℕ, zero, suc, ◌+◌, ◌-◌, ◌^◌, ◌≤◌, ◌<◌, ◌≡◌, sym, ◌∙◌, ap, subst, inl, inr, Bool, true, false,
  ◌||◌, arith, ltb, if◌then◌else◌, two-pow-suc, two-pow-pos, Bool-cases,
}
use simple_rv64os.Buddy.{Bitmap, upd}
use simple_rv64os.Buddy.Tree.{left, right, IsTree, IsFull, page_free, combine, IsTree-IsFull}
use simple_rv64os.Buddy.Local.{
  Frame, IsFull-Same, page_free-Same, Frame-Same-left, Frame-Same-right, upd-Same-left,
  upd-Same-right, page_free-IsFull, page_free-zero,
}
use simple_rv64os.Buddy.Alloc.{in_block}
use simple_rv64os.Buddy.Release.{
  side, rest, block_exponent, block_start, release, release-Frame, release-whole, release-part,
  rejoin, used_whole, IsTree-side,
}
use simple_rv64os.Buddy.Climb.{rest-lt}

page_free-rejoin :
    (m : Bitmap) (d i p : ℕ)
    → page_free (rejoin m d i) (suc d) i p ≡ page_free m d (side d i p) (rest d p)
page_free-rejoin m d i p =
    let v = combine (2 ^ suc d) (m (left i)) (m (right i)) in
    ground (
      arith,
      two-pow-pos (suc d),
      page_free-Same m (upd m i v) d (left i) p (upd-Same-left m i v),
      page_free-Same m (upd m i v) d (right i) (p - 2 ^ d) (upd-Same-right m i v),
      page_free-zero m d (left i) p,
      page_free-zero m d (right i) (p - 2 ^ d),
    )

-- Where a node is no block in use, its pages are those of its halves.
page_free-halves :
    (m : Bitmap) (d i q p : ℕ)
    → IsTree m (suc d) i
    → page_free m d (side d i q) (rest d q) ≡ false
    → page_free m (suc d) i p ≡ page_free m d (side d i p) (rest d p)
page_free-halves m d i q p h used = elim h.2 [
  | inl e ↦ ground (
    arith,
    two-pow-pos (suc d),
    page_free-zero m d (left i) p,
    page_free-zero m d (right i) (p - 2 ^ d),
  )
  | inr u ↦ absurd (elim (Bool-cases (ltb q (2 ^ d))) [
    | inl t ↦ ground (arith, page_free-IsFull m d (left i) q u.1)
    | inr t ↦ ground (arith, page_free-IsFull m d (right i) (q - 2 ^ d) u.2)
  ])
]

-- The pages of a block, all in use before, are free, and no other page changes.
abbrev pub Gives : Bitmap → Bitmap → ℕ → ℕ → ℕ → ℕ → ℕ → Type 0
Gives m m' d i o n p =
    (page_free m' d i p ≡ (page_free m d i p || in_block o n p))
    × (in_block o n p ≡ true → page_free m d i p ≡ false)

-- The half that the block does not lie in keeps its pages.
other_half :
    (m : Bitmap) (d i q p : ℕ)
    → (ltb p (2 ^ d) ≡ true → ltb q (2 ^ d) ≡ false)
    → (ltb p (2 ^ d) ≡ false → ltb q (2 ^ d) ≡ true)
    → page_free (release m d (side d i q) (rest d q)) d (side d i p) (rest d p)
      ≡ page_free m d (side d i p) (rest d p)
other_half m d i q p f g =
    let m' = release m d (side d i q) (rest d q) in
    let frame = release-Frame m d (side d i q) (rest d q) in
    elim (Bool-cases (ltb p (2 ^ d))) [
      | inl t ↦
          let frame' = subst (λ b. Frame m m' (if b then left i else right i)) (f t) frame in
          rw t (page_free-Same m m' d (left i) p (Frame-Same-left m m' i frame'))
      | inr t ↦
          let frame' = subst (λ b. Frame m m' (if b then left i else right i)) (g t) frame in
          rw t (page_free-Same m m' d (right i) (p - 2 ^ d) (Frame-Same-right m m' i frame'))
    ]

pub block_start-le :
    (m : Bitmap) (d i p : ℕ) → block_start m d i p + 2 ^ block_exponent m d i p ≤ 2 ^ d
unfolding block_start block_exponent
block_start-le m zero i p = omega arith
block_start-le m (suc d) i p =
    ground (arith, two-pow-suc d, block_start-le m d (side d i p) (rest d p))

-- The block lies in the half of page `q`, `o` pages into it.
part_case :
    (q p half o n : ℕ) (after before : Bool)
    → o + n ≤ half
    → (ltb q half ≡ ltb p half
        → (after ≡ (before || in_block o n (if ltb p half then p else p - half)))
          × (in_block o n (if ltb p half then p else p - half) ≡ true → before ≡ false))
    → ((ltb p half ≡ true → ltb q half ≡ false)
        → (ltb p half ≡ false → ltb q half ≡ true)
        → after ≡ before)
    → (after ≡ (before || in_block (o + (if ltb q half then 0 else half)) n p))
      × (in_block (o + (if ltb q half then 0 else half)) n p ≡ true → before ≡ false)
part_case q p half o n after before fits same other = elim (Bool-cases (ltb q half)) [
  | inl t ↦ elim (Bool-cases (ltb p half)) [
    | inl u ↦ let k = same (t ∙ sym u) in ground arith
    | inr u ↦ let k = other (λ v. cc) (λ v. t) in ground arith
  ]
  | inr t ↦ elim (Bool-cases (ltb p half)) [
    | inl u ↦ let k = other (λ v. t) (λ v. cc) in ground arith
    | inr u ↦ let k = same (t ∙ sym u) in ground arith
  ]
]

-- Giving back the block of page `q`, which is in use, frees exactly the pages of the block.
pub release-pages :
    (m : Bitmap) (d i q p : ℕ)
    → IsTree m d i
    → page_free m d i q ≡ false
    → q < 2 ^ d
    → p < 2 ^ d
    → Gives m (release m d i q) d i (block_start m d i q) (2 ^ block_exponent m d i q) p
unfolding block_start block_exponent
release-pages m zero i q p h used lq lp = unfold release in ground arith
release-pages m (suc d) i q p h used lq lp =
    elim (Bool-cases (page_free m d (side d i q) (rest d q))) [
      | inl t ↦
          let (z, vl, vr) = used_whole m d i q h used t in
          let m' = upd m i (2 ^ suc d) in
          let fl =
            IsFull-Same m m' d (left i) (upd-Same-left m i _) (IsTree-IsFull m d (left i) h.0 vl) in
          let fr =
            IsFull-Same m m' d (right i) (upd-Same-right m i _)
              (IsTree-IsFull m d (right i) h.1 vr) in
          let full : IsFull m' (suc d) i = (ground arith, fl, fr) in
          rw t (
            subst (λ x. Gives m x (suc d) i 0 (2 ^ suc d) p) (sym (release-whole m d i q t))
              (ground
                (arith, page_free-IsFull m' (suc d) i p full, page_free-zero m (suc d) i p z)))
      | inr t ↦
          let m' = release m d (side d i q) (rest d q) in
          let o = block_start m d (side d i q) (rest d q) in
          let n = 2 ^ block_exponent m d (side d i q) (rest d q) in
          let ih =
            release-pages m d (side d i q) (rest d q) (rest d p) (IsTree-side m d i q h) t
              (rest-lt d q lq) (rest-lt d p lp) in
          let (e, f) =
            part_case q p (2 ^ d) o n (page_free m' d (side d i p) (rest d p))
              (page_free m d (side d i p) (rest d p)) (block_start-le m d (side d i q) (rest d q))
              (λ same.
                subst (λ b. Gives m m' d (if b then left i else right i) o n (rest d p)) same ih)
              (other_half m d i q p) in
          let halves = page_free-halves m d i q p h t in
          rw t (
            subst (λ x. Gives m x (suc d) i (o + (if ltb q (2 ^ d) then 0 else 2 ^ d)) n p)
              (sym (release-part m d i q t))
              (
                page_free-rejoin m' d i p
                    ∙ e
                    ∙ ap (λ b. b || in_block (o + (if ltb q (2 ^ d) then 0 else 2 ^ d)) n p)
                        (sym halves),
                λ inside. halves ∙ f inside,
              ))
    ]
