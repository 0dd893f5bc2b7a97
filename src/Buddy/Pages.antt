-- ===== src/Buddy/Pages.antt =====
-- Which pages taking a block changes.
use simple_rv64os.Base.{
  ℕ, zero, suc, ◌+◌, ◌-◌, ◌^◌, ◌≤◌, ◌<◌, ◌≡◌, sym, ◌∙◌, ap, subst, inl, inr, Bool, true, false, not,
  ◌&&◌, arith, ltb, ltb→lt, leb, ◌==◌, if◌then◌else◌, two-pow-suc, two-pow-pos, Bool-cases,
}
use simple_rv64os.Buddy.{Bitmap, upd, max_of}
use simple_rv64os.Buddy.Tree.{left, right, IsTree, page_free, IsTree-le, IsTree-IsFull}
use simple_rv64os.Buddy.Local.{
  Same, page_free-Same, Frame-Same-left, Frame-Same-right, upd-Same-left, upd-Same-right,
  page_free-zero, page_free-IsFull,
}
use simple_rv64os.Buddy.Claim.{above, above-le, claim, claim-left, claim-right}
use simple_rv64os.Buddy.Alloc.{claim-Frame, offset, in_block, offset-le, right_holds}

-- The pages of a node rebuilt from its children.
pub page_free-rebuilt :
    (m : Bitmap) (d i p : ℕ)
    → page_free (upd m i (max_of (m (left i)) (m (right i)))) (suc d) i p
      ≡ (if ltb p (2 ^ d) then page_free m d (left i) p else page_free m d (right i) (p - 2 ^ d))
page_free-rebuilt m d i p =
    let v = max_of (m (left i)) (m (right i)) in
    ground (
      arith,
      page_free-Same m (upd m i v) d (left i) p (upd-Same-left m i v),
      page_free-Same m (upd m i v) d (right i) (p - 2 ^ d) (upd-Same-right m i v),
      page_free-zero m d (left i) p,
      page_free-zero m d (right i) (p - 2 ^ d),
    )

-- The block taken was free, and no other page changes.
abbrev Exactly : Bitmap → Bitmap → ℕ → ℕ → ℕ → ℕ → ℕ → Type 0
Exactly m m' d i o n p =
    (page_free m' d i p ≡ (page_free m d i p && not (in_block o n p)))
    × (in_block o n p ≡ true → page_free m d i p ≡ true)

-- The same for the pages of two halves, where the block lies in the left or in the right half.
module _ (value p half o n : ℕ) (l r c : Bool) (pos : 1 ≤ value) where
  in_left :
      o + n ≤ half
      → (p < half → (c ≡ (l && not (in_block o n p))) × (in_block o n p ≡ true → l ≡ true))
      → ((if ltb p half then c else r)
          ≡ ((if value == 0 then false else if ltb p half then l else r) && not (in_block o n p)))
        × (in_block o n p ≡ true
            → (if value == 0 then false else if ltb p half then l else r) ≡ true)
  in_left fits h = elim (Bool-cases (ltb p half)) [
    | inl t ↦ let k = h (ltb→lt p half t) in ground arith
    | inr t ↦ ground arith
  ]

  in_right :
      (half ≤ p
        → (c ≡ (r && not (in_block o n (p - half)))) × (in_block o n (p - half) ≡ true → r ≡ true))
      → ((if ltb p half then l else c) ≡ (
          (if value == 0 then false else if ltb p half then l else r)
          && not (in_block (o + half) n p)))
        × (in_block (o + half) n p ≡ true
            → (if value == 0 then false else if ltb p half then l else r) ≡ true)
  in_right h = elim (Bool-cases (ltb p half)) [
    | inl t ↦ ground arith
    | inr t ↦ let k = h (ground arith) in ground arith
  ]

pub offset-left :
    (m : Bitmap) (e k i : ℕ)
    → leb (2 ^ e) (m (left i)) ≡ true
    → offset m e (suc k) i ≡ offset m e k (left i)
unfolding offset
offset-left m e k i t = rw t (omega arith)

pub offset-right :
    (m : Bitmap) (e k i : ℕ)
    → leb (2 ^ e) (m (left i)) ≡ false
    → offset m e (suc k) i ≡ offset m e k (right i) + 2 ^ above k e
unfolding offset
offset-right m e k i t = rw t

module _ (m m' : Bitmap) (d i p o n : ℕ) (pos : 1 ≤ m i) where
  abbrev top : Bitmap
  top = upd m' i (max_of (m' (left i)) (m' (right i)))

  Exactly-left :
      o + n ≤ 2 ^ d
      → Same m m' (right i)
      → (p < 2 ^ d → Exactly m m' d (left i) o n p)
      → Exactly m top (suc d) i o n p
  Exactly-left fits other h =
      let q = p - 2 ^ d in
      let s =
        in_left (m i) p (2 ^ d) o n (page_free m d (left i) p) (page_free m d (right i) q)
          (page_free m' d (left i) p) pos fits h in
      let e =
        ap (λ b. if ltb p (2 ^ d) then page_free m' d (left i) p else b)
          (page_free-Same m m' d (right i) q other) in
      (page_free-rebuilt m' d i p ∙ e ∙ s.0, s.1)

  Exactly-right :
      Same m m' (left i)
      → (2 ^ d ≤ p → Exactly m m' d (right i) o n (p - 2 ^ d))
      → Exactly m top (suc d) i (o + 2 ^ d) n p
  Exactly-right other h =
      let q = p - 2 ^ d in
      let s =
        in_right (m i) p (2 ^ d) o n (page_free m d (left i) p) (page_free m d (right i) q)
          (page_free m' d (right i) q) pos h in
      let e =
        ap (λ b. if ltb p (2 ^ d) then b else page_free m' d (right i) q)
          (page_free-Same m m' d (left i) p other) in
      (page_free-rebuilt m' d i p ∙ e ∙ s.0, s.1)

-- Taking a block of `2 ^ e` pages takes exactly the pages from `offset` on, all of them free.
pub claim-pages :
    (m : Bitmap) (e k i p : ℕ)
    → IsTree m (above k e) i
    → 2 ^ e ≤ m i
    → p < 2 ^ above k e
    → Exactly m (claim m (2 ^ e) k i) (above k e) i (offset m e k i) (2 ^ e) p
unfolding offset
claim-pages m e zero i p h holds lt =
    let full = IsTree-IsFull m e i h (omega (arith, IsTree-le m e i h)) in
    let top : claim m (2 ^ e) zero i i ≡ 0 = unfold claim in ground arith in
    ground (arith, page_free-IsFull m e i p full, page_free-zero (claim m (2 ^ e) zero i) e i p top)
claim-pages m e (suc k) i p h holds lt =
    let d = above k e in
    let n = 2 ^ e in
    let pos : 1 ≤ m i = omega (arith, two-pow-pos e) in
    elim (Bool-cases (leb n (m (left i)))) [
      | inl t ↦
          let m' = claim m n k (left i) in
          let same = Frame-Same-right m m' i (claim-Frame m n k (left i)) in
          subst (λ x. Exactly m x (suc d) i (offset m e (suc k) i) n p) (sym (claim-left m n k i t))
            (subst (λ o. Exactly m (top m m' d i p 0 n pos) (suc d) i o n p)
              (sym (offset-left m e k i t))
              (Exactly-left m m' d i p (offset m e k (left i)) n pos (offset-le m e k (left i)) same
                (claim-pages m e k (left i) p h.0 (ground arith))))
      | inr t ↦
          let m' = claim m n k (right i) in
          let same = Frame-Same-left m m' i (claim-Frame m n k (right i)) in
          let room = right_holds m d n i h (two-pow-pos e) (above-le k e) holds t in
          subst (λ x. Exactly m x (suc d) i (offset m e (suc k) i) n p)
            (sym (claim-right m n k i t))
            (subst (λ o. Exactly m (top m m' d i p 0 n pos) (suc d) i o n p)
              (sym (offset-right m e k i t))
              (Exactly-right m m' d i p (offset m e k (right i)) n pos same (λ ge.
                claim-pages m e k (right i) (p - 2 ^ d) h.1 room (omega (arith, two-pow-suc d)))))
    ]
