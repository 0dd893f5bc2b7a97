-- ===== src/Buddy/Merge.antt =====
-- The second loop of `buddy_free`, from the block up to the root, rebuilds the tree.
use simple_rv64os.Base.{
  ℕ, zero, suc, ◌+◌, ◌^◌, ◌≤◌, ◌<◌, ◌≡◌, refl, sym, ◌∙◌, ap, subst, ◌≢◌, inl, inr, false, arith,
  ◌==◌, two-pow-suc, Bool-cases, ne→==,
}
use simple_rv64os.Base.Word.{add64, mul64}
use simple_rv64os.Buddy.{Bitmap, upd, parent, merge}
use simple_rv64os.Buddy.Tree.{
  left, right, Fits, Fits-index, Fits-size, left_leaf_lem, right_leaf_lem, IsTree, page_free,
  combine, IsTree-le,
}
use simple_rv64os.Buddy.Release.{
  side, rest, block_index, block_exponent, release, release-whole, release-part, rejoin,
  release-IsTree, IsTree-side, release-side,
}
use simple_rv64os.Buddy.Climb.{Fits-side, parent-side, double_word}

merge_fuel :
    (f g : ℕ) (m : Bitmap) (s i : ℕ) → i ≤ f → i ≤ g → i < 2 ^ 60 → merge f m s i ≡ merge g m s i
unfolding merge parent
merge_fuel zero zero m s i p q b = refl
merge_fuel zero (suc g) m s i p q b = ground arith
merge_fuel (suc f) zero m s i p q b = ground arith
merge_fuel (suc f) (suc g) m s i p q b = elim (Bool-cases (i == 0)) [
  | inl e ↦ rw e
  | inr e ↦ rw e (merge_fuel f g _ _ (parent i) (ground arith) (ground arith) (ground arith))
]

merge-suc :
    (f : ℕ) (m : Bitmap) (s c i : ℕ)
    → i < 2 ^ 60
    → c ≢ 0
    → parent c ≡ i
    → add64 (m (left i)) (m (right i)) ≡ m (left i) + m (right i)
    → merge (suc f) m s c
      ≡ merge f (upd m i (combine (mul64 s 2) (m (left i)) (m (right i)))) (mul64 s 2) i
unfolding merge
merge-suc f m s c i b ne e sum =
    rw (ne→== c 0 ne, e, left_leaf_lem i b, right_leaf_lem i b, sum) refl

-- One round of the loop, from the child of `i` that holds page `p`.
merge_child :
    (m : Bitmap) (d i p : ℕ)
    → Fits (suc d) i
    → IsTree m d (left i)
    → IsTree m d (right i)
    → merge (side d i p) m (2 ^ d) (side d i p) ≡ merge i (rejoin m d i) (2 ^ suc d) i
merge_child m d i p h l r =
    let c = side d i p in
    let b = Fits-index d c (Fits-side d i p h) in
    let top = Fits-index (suc d) i h in
    let (e, lt) = parent-side d i p top in
    let word = double_word d i h in
    let sum : add64 (m (left i)) (m (right i)) ≡ m (left i) + m (right i) = omega (
      arith,
      two-pow-suc d,
      Fits-size (suc d) i h,
      IsTree-le m d (left i) l,
      IsTree-le m d (right i) r,
    ) in
    merge_fuel c (suc c) m (2 ^ d) c (omega arith) (omega arith) b
    ∙ merge-suc c m (2 ^ d) c i top (omega arith) e sum
    ∙ subst
        (λ x.
          merge c (upd m i (combine x (m (left i)) (m (right i)))) x i
          ≡ merge i (rejoin m d i) (2 ^ suc d) i)
        (sym word) (merge_fuel c i _ _ i (omega arith) (omega arith) top)

-- Marking the block free and going up from it is the recursion, and going up from there.
pub merge-release :
    (m : Bitmap) (d i p : ℕ)
    → Fits d i
    → IsTree m d i
    → page_free m d i p ≡ false
    → let t = block_index m d i p in
      let s = 2 ^ block_exponent m d i p in
      merge t (upd m t s) s t ≡ merge i (release m d i p) (2 ^ d) i
unfolding block_index block_exponent
merge-release m zero i p h tree used = unfold release in refl
merge-release m (suc d) i p h tree used =
    elim (Bool-cases (page_free m d (side d i p) (rest d p))) [
      | inl t ↦ rw t (rw (release-whole m d i p t))
      | inr t ↦
          let c = side d i p in
          let below = IsTree-side m d i p tree in
          let given = release-IsTree m d c (rest d p) below t in
          let (l, r) = release-side m d i p tree given in
          rw t (
            merge-release m d c (rest d p) (Fits-side d i p h) below t
            ∙ merge_child (release m d c (rest d p)) d i p h l r
            ∙ ap (λ x. merge i x (2 ^ suc d) i) (sym (release-part m d i p t)))
    ]

pub merge-zero : (m : Bitmap) (s : ℕ) → merge 0 m s 0 ≡ m
unfolding merge
merge-zero m s = refl
