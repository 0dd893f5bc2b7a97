-- ===== src/Buddy/Alloc.antt =====
-- What taking a block does to a well-formed bitmap and to its pages.
use simple_rv64os.Base.{
  ℕ, zero, suc, ◌+◌, ◌*◌, ◌^◌, ◌≤◌, ◌<◌, ◌≡◌, sym, ◌∙◌, subst, ◌⊎◌, inl, inr, Bool, false, ◌&&◌,
  arith, ltb, leb, if◌then◌else◌, two-pow-suc, two-pow-pos, Bool-cases,
}
use simple_rv64os.Buddy.{Bitmap, upd, max_of}
use simple_rv64os.Buddy.Tree.{
  left, right, Under-of_left, Under-of_right, IsTree, IsTree-le, IsTree-IsFull,
}
use simple_rv64os.Buddy.Local.{
  Frame, IsFull-Same, IsTree-Same, Frame-Same-left, Frame-Same-right, upd-Same-left, upd-Same-right,
  upd-Frame,
}
use simple_rv64os.Buddy.Claim.{above, above-le, pick, target, claim, claim-left, claim-right}

-- A write at `i` on top of changes below a child of `i` stays below `i`.
pub Frame-left : (m m' : Bitmap) (i v : ℕ) → Frame m m' (left i) → Frame m (upd m' i v) i
Frame-left m m' i v f j n = upd-Frame m' i v j n ∙ f j (λ u. n (Under-of_left i j u))

pub Frame-right : (m m' : Bitmap) (i v : ℕ) → Frame m m' (right i) → Frame m (upd m' i v) i
Frame-right m m' i v f j n = upd-Frame m' i v j n ∙ f j (λ u. n (Under-of_right i j u))

pub claim-Frame : (m : Bitmap) (n k i : ℕ) → Frame m (claim m n k i) i
unfolding claim
claim-Frame m n zero i = upd-Frame m i 0
claim-Frame m n (suc k) i = elim (Bool-cases (leb n (m (left i)))) [
  | inl e ↦
      subst (λ x. Frame m x i) (sym (claim-left m n k i e))
        (Frame-left m _ i _ (claim-Frame m n k (left i)))
  | inr e ↦
      subst (λ x. Frame m x i) (sym (claim-right m n k i e))
        (Frame-right m _ i _ (claim-Frame m n k (right i)))
]

-- If the left child does not hold the request, the right one does.
pub right_holds :
    (m : Bitmap) (d n i : ℕ)
    → IsTree m (suc d) i
    → 1 ≤ n
    → n ≤ 2 ^ d
    → n ≤ m i
    → leb n (m (left i)) ≡ false
    → n ≤ m (right i)
right_holds m d n i h pos small holds e =
    ground (arith, two-pow-suc d, IsTree-le m d (left i) h.0, IsTree-le m d (right i) h.1)

-- Well formed below `i`, and no longer wholly free.
abbrev pub Taken : ℕ → ℕ → Bitmap → Type 0
Taken d i m = IsTree m d i × (m i < 2 ^ d)

-- A node rebuilt from well-formed children of which one is not wholly free.
pub rebuilt :
    (m : Bitmap) (d i : ℕ)
    → IsTree m d (left i)
    → IsTree m d (right i)
    → (m (left i) < 2 ^ d) ⊎ (m (right i) < 2 ^ d)
    → let m' = upd m i (max_of (m (left i)) (m (right i))) in Taken (suc d) i m'
rebuilt m d i l r less =
    let v = max_of (m (left i)) (m (right i)) in
    let m' = upd m i v in
    let double = two-pow-suc d in
    let pos = two-pow-pos d in
    let bl = IsTree-le m d (left i) l in
    let br = IsTree-le m d (right i) r in
    (
      (
        IsTree-Same m m' d (left i) (upd-Same-left m i v) l,
        IsTree-Same m m' d (right i) (upd-Same-right m i v) r,
        inl (ground arith),
      ),
      ground arith,
    )

pub claim-Taken :
    (m : Bitmap) (e k i : ℕ)
    → IsTree m (above k e) i
    → 2 ^ e ≤ m i
    → Taken (above k e) i (claim m (2 ^ e) k i)
unfolding claim
claim-Taken m zero zero i h holds = ground arith
claim-Taken m (suc e) zero i h holds =
    let full = IsTree-IsFull m (suc e) i h (omega (arith, IsTree-le m (suc e) i h)) in
    let m' = upd m i 0 in
    let pos = two-pow-pos (suc e) in
    (
      (
        IsTree-Same m m' e (left i) (upd-Same-left m i 0) h.0,
        IsTree-Same m m' e (right i) (upd-Same-right m i 0) h.1,
        inr (
          ground arith,
          IsFull-Same m m' e (left i) (upd-Same-left m i 0) full.1,
          IsFull-Same m m' e (right i) (upd-Same-right m i 0) full.2,
        ),
      ),
      ground arith,
    )
claim-Taken m e (suc k) i h holds = elim (Bool-cases (leb (2 ^ e) (m (left i)))) [
  | inl t ↦
      let m' = claim m (2 ^ e) k (left i) in
      let ih = claim-Taken m e k (left i) h.0 (ground arith) in
      subst (Taken (suc (above k e)) i) (sym (claim-left m (2 ^ e) k i t)) (
        rebuilt m' (above k e) i ih.0
          (IsTree-Same m m' (above k e) (right i)
            (Frame-Same-right m m' i (claim-Frame m (2 ^ e) k (left i))) h.1)
          (inl ih.1))
  | inr t ↦
      let m' = claim m (2 ^ e) k (right i) in
      let room = right_holds m (above k e) (2 ^ e) i h (two-pow-pos e) (above-le k e) holds t in
      let ih = claim-Taken m e k (right i) h.1 room in
      subst (Taken (suc (above k e)) i) (sym (claim-right m (2 ^ e) k i t)) (
        rebuilt m' (above k e) i
          (IsTree-Same m m' (above k e) (left i)
            (Frame-Same-left m m' i (claim-Frame m (2 ^ e) k (right i))) h.0)
          ih.0 (inr ih.1))
]

-- The first page, in the block of `i`, of the block that is taken.
unfoldable pub offset : Bitmap → ℕ → ℕ → ℕ → ℕ
offset m e zero i = 0
offset m e (suc k) i =
    offset m e k (pick m (2 ^ e) i) + (if leb (2 ^ e) (m (left i)) then 0 else 2 ^ above k e)

-- `p` lies in the `n` pages from `o` on.
abbrev pub in_block : ℕ → ℕ → ℕ → Bool
in_block o n p = leb o p && ltb p (o + n)

pub offset-le : (m : Bitmap) (e k i : ℕ) → offset m e k i + 2 ^ e ≤ 2 ^ above k e
unfolding offset
offset-le m e zero i = omega arith
offset-le m e (suc k) i =
    ground (arith, two-pow-suc (above k e), offset-le m e k (left i), offset-le m e k (right i))

-- The node taken and its first page, as `buddy_alloc` relates them.
pub target-offset :
    (m : Bitmap) (e k i : ℕ)
    → (target m (2 ^ e) k i + 1) * 2 ^ e ≡ (i + 1) * 2 ^ above k e + offset m e k i
unfolding offset target
target-offset m e zero i = omega arith
target-offset m e (suc k) i = elim (Bool-cases (leb (2 ^ e) (m (left i)))) [
  | inl t ↦ rw (t, two-pow-suc (above k e)) (omega (arith, target-offset m e k (left i)))
  | inr t ↦ rw (t, two-pow-suc (above k e)) (omega (arith, target-offset m e k (right i)))
]
