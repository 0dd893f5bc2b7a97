-- ===== src/Buddy/Claim.antt =====
-- `buddy_alloc` as a recursion down the tree, and why the loops of the code compute it.
use simple_rv64os.Base.{
  ℕ, zero, suc, ◌+◌, ◌-◌, ◌/◌, ◌^◌, ◌≤◌, ◌<◌, ◌≡◌, refl, ◌∙◌, ◌≢◌, inl, inr, true, false, some,
  arith, leb, ◌==◌, if◌then◌else◌, two-pow-suc, two-pow-pos, Bool-cases, ne→==,
}
use simple_rv64os.Buddy.{Bitmap, upd, max_of, parent, descend, refresh}
use simple_rv64os.Buddy.Tree.{
  left, right, Fits, Fits-left, Fits-right, Fits-index, left_leaf_lem, right_leaf_lem, parent-left,
  parent-right,
}

-- The depth `k` levels above depth `e`.
abbrev pub above : ℕ → ℕ → ℕ
above zero e = e
above (suc k) e = suc (above k e)

pub above-le : (k e : ℕ) → 2 ^ e ≤ 2 ^ above k e
above-le zero e = omega arith
above-le (suc k) e = omega (arith, above-le k e, two-pow-suc (above k e))

pub above-sub : (d e : ℕ) → e ≤ d → above (d - e) e ≡ d
above-sub d e h = steps (d - e) d (omega arith)
  where
    steps : (k d : ℕ) → d ≡ k + e → above k e ≡ d
    steps zero d h = omega arith
    steps (suc k) d h = omega (arith, steps k (k + e) refl)

-- The child in which `buddy_alloc` looks for `n` pages.
abbrev pub pick : Bitmap → ℕ → ℕ → ℕ
pick m n i = if leb n (m (left i)) then left i else right i

-- The node that is taken, `k` levels below `i`.
unfoldable pub target : Bitmap → ℕ → ℕ → ℕ → ℕ
target m n zero i = i
target m n (suc k) i = target m n k (pick m n i)

-- The bitmap below `i` once that node is taken.
unfoldable pub claim : Bitmap → ℕ → ℕ → ℕ → Bitmap
claim m n zero i = upd m i 0
claim m n (suc k) i =
    let m' = claim m n k (pick m n i) in upd m' i (max_of (m' (left i)) (m' (right i)))

pub claim-left :
    (m : Bitmap) (n k i : ℕ)
    → leb n (m (left i)) ≡ true
    → let m' = claim m n k (left i) in
      claim m n (suc k) i ≡ upd m' i (max_of (m' (left i)) (m' (right i)))
unfolding claim
claim-left m n k i e = rw e

pub claim-right :
    (m : Bitmap) (n k i : ℕ)
    → leb n (m (left i)) ≡ false
    → let m' = claim m n k (right i) in
      claim m n (suc k) i ≡ upd m' i (max_of (m' (left i)) (m' (right i)))
unfolding claim
claim-right m n k i e = rw e

pub Fits-pick : (m : Bitmap) (n d i : ℕ) → Fits (suc d) i → Fits d (pick m n i)
Fits-pick m n d i h = elim (Bool-cases (leb n (m (left i)))) [
  | inl e ↦ rw e (Fits-left d i h)
  | inr e ↦ rw e (Fits-right d i h)
]

descend-suc :
    (f : ℕ) (m : Bitmap) (n s i : ℕ)
    → i < 2 ^ 60
    → s ≢ n
    → descend (suc f) m n s i ≡ descend f m n (s / 2) (pick m n i)
unfolding descend
descend-suc f m n s i h ne = ground (arith, left_leaf_lem i h, right_leaf_lem i h)

-- The loop over `node_size` ends, at the node that the recursion takes.
pub descend_lem :
    (m : Bitmap) (e k f i : ℕ)
    → Fits (above k e) i
    → k < f
    → descend f m (2 ^ e) (2 ^ above k e) i ≡ some (target m (2 ^ e) k i, 2 ^ e)
unfolding target
descend_lem m e k zero i h lt = absurd (omega arith)
descend_lem m e zero (suc f) i h lt = unfold descend in ground arith
descend_lem m e (suc k) (suc f) i h lt =
    let double = two-pow-suc (above k e) in
    let half : 2 ^ suc (above k e) / 2 ≡ 2 ^ above k e = omega (arith, double) in
    descend-suc f m (2 ^ e) (2 ^ suc (above k e)) i (Fits-index (suc (above k e)) i h)
      (omega (arith, double, above-le k e, two-pow-pos e))
    ∙ rw half
        (descend_lem m e k f (pick m (2 ^ e) i) (Fits-pick m (2 ^ e) (above k e) i h) (omega arith))

-- Fuel beyond the index changes nothing.
refresh_fuel :
    (f g : ℕ) (m : Bitmap) (i : ℕ) → i ≤ f → i ≤ g → i < 2 ^ 60 → refresh f m i ≡ refresh g m i
unfolding refresh parent
refresh_fuel zero zero m i p q b = refl
refresh_fuel zero (suc g) m i p q b = ground arith
refresh_fuel (suc f) zero m i p q b = ground arith
refresh_fuel (suc f) (suc g) m i p q b = elim (Bool-cases (i == 0)) [
  | inl e ↦ rw e
  | inr e ↦ rw e (refresh_fuel f g _ (parent i) (ground arith) (ground arith) (ground arith))
]

-- One round of the upward loop, from a child of `i`.
refresh-suc :
    (f : ℕ) (m : Bitmap) (c i : ℕ)
    → i < 2 ^ 60
    → c ≢ 0
    → parent c ≡ i
    → refresh (suc f) m c ≡ refresh f (upd m i (max_of (m (left i)) (m (right i)))) i
unfolding refresh
refresh-suc f m c i b ne e = rw (ne→== c 0 ne, e, left_leaf_lem i b, right_leaf_lem i b) refl

refresh_child :
    (m : Bitmap) (c i : ℕ)
    → c < 2 ^ 60
    → i < c
    → parent c ≡ i
    → refresh c m c ≡ refresh i (upd m i (max_of (m (left i)) (m (right i)))) i
refresh_child m c i b lt e =
    refresh_fuel c (suc c) m c (omega arith) (omega arith) b
    ∙ refresh-suc c m c i (omega arith) (omega arith) e
    ∙ refresh_fuel c i _ i (omega arith) (omega arith) (omega arith)

refresh-pick :
    (m m' : Bitmap) (n i : ℕ)
    → pick m n i < 2 ^ 60
    → refresh (pick m n i) m' (pick m n i)
      ≡ refresh i (upd m' i (max_of (m' (left i)) (m' (right i)))) i
refresh-pick m m' n i b = elim (Bool-cases (leb n (m (left i)))) [
  | inl e ↦
      let b' : left i < 2 ^ 60 = ground arith in
      rw e (refresh_child m' (left i) i b' (omega arith) (parent-left i (omega arith)))
  | inr e ↦
      let b' : right i < 2 ^ 60 = ground arith in
      rw e (refresh_child m' (right i) i b' (omega arith) (parent-right i (omega arith)))
]

-- Zeroing the target and going up from it is the recursion, and going up from where that began.
pub refresh-claim :
    (m : Bitmap) (e k i : ℕ)
    → Fits (above k e) i
    → let t = target m (2 ^ e) k i in refresh t (upd m t 0) t ≡ refresh i (claim m (2 ^ e) k i) i
unfolding target claim
refresh-claim m e zero i h = refl
refresh-claim m e (suc k) i h =
    let fits = Fits-pick m (2 ^ e) (above k e) i h in
    refresh-claim m e k (pick m (2 ^ e) i) fits
    ∙ refresh-pick m (claim m (2 ^ e) k (pick m (2 ^ e) i)) (2 ^ e) i
        (Fits-index (above k e) (pick m (2 ^ e) i) fits)

pub refresh-zero : (m : Bitmap) → refresh 0 m 0 ≡ m
unfolding refresh
refresh-zero m = refl
