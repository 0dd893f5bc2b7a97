-- ===== src/Buddy/Room.antt =====
-- The root of the bitmap holds a request whenever an aligned block of that size is free.
use simple_rv64os.Base.{
  ℕ, zero, suc, ◌+◌, ◌-◌, ◌*◌, ◌^◌, ◌≤◌, ◌<◌, ◌≡◌, refl, sym, ◌∙◌, subst, ◌⊎◌, inl, inr, true, some,
  arith, ltb, ltb→lt, lt→ltb, two-pow-suc, two-pow-pos, Bool-cases,
}
use simple_rv64os.Buddy.{Bitmap, Buddy, round_request, buddy_alloc}
use simple_rv64os.Buddy.Tree.{left, right, IsTree, page_free, IsTree-le}
use simple_rv64os.Buddy.Claim.{above, above-sub}
use simple_rv64os.Buddy.Take.{IsBuddy, is_free, pow-above}

pub page_free-left :
    (m : Bitmap) (d i p : ℕ)
    → p < 2 ^ d
    → page_free m (suc d) i p ≡ true
    → page_free m d (left i) p ≡ true
page_free-left m d i p lt h = ground arith

pub page_free-right :
    (m : Bitmap) (d i p : ℕ)
    → page_free m (suc d) i (p + 2 ^ d) ≡ true
    → page_free m d (right i) p ≡ true
page_free-right m d i p h = let e : p + 2 ^ d - 2 ^ d ≡ p = omega arith in rw e at k
  where
    k : page_free m d (right i) (p + 2 ^ d - 2 ^ d) ≡ true
    k = ground arith

pub page_free-pos : (m : Bitmap) (d i p : ℕ) → page_free m d i p ≡ true → 1 ≤ m i
page_free-pos m zero i p h = ground arith
page_free-pos m (suc d) i p h = ground arith

-- A block all of whose pages are free is whole.
all_free-whole :
    (m : Bitmap) (d i : ℕ)
    → IsTree m d i
    → ((p : ℕ) → p < 2 ^ d → page_free m d i p ≡ true)
    → m i ≡ 2 ^ d
all_free-whole m zero i h f = omega (arith, page_free-pos m zero i 0 (f 0 (omega arith)))
all_free-whole m (suc d) i h f =
    let double = two-pow-suc d in
    let pos = two-pow-pos d in
    let l =
      all_free-whole m d (left i) h.0 (λ p lt. page_free-left m d i p lt (f p (omega arith))) in
    let r =
      all_free-whole m d (right i) h.1
        (λ p lt. page_free-right m d i p (f (p + 2 ^ d) (omega arith))) in
    let some_free = page_free-pos m (suc d) i 0 (f 0 (omega arith)) in ground arith

block_inside : (q k n p : ℕ) → q < k → p < n → q * n + p < k * n
block_inside q k n p h lt = grind arith

-- A node with a free page holds what its children hold.
child_held :
    (m : Bitmap) (d i n : ℕ)
    → IsTree m (suc d) i
    → 1 ≤ m i
    → (n ≤ m (left i)) ⊎ (n ≤ m (right i))
    → n ≤ m i
child_held m d i n h pos held =
    ground (arith, two-pow-suc d, IsTree-le m d (left i) h.0, IsTree-le m d (right i) h.1)

block_held :
    (m : Bitmap) (e k i q : ℕ)
    → IsTree m (above k e) i
    → q < 2 ^ k
    → ((p : ℕ) → p < 2 ^ e → page_free m (above k e) i (q * 2 ^ e + p) ≡ true)
    → 2 ^ e ≤ m i
block_held m e zero i q h lt f =
    let whole = all_free-whole m e i h (λ p small.
      let at : q * 2 ^ e + p ≡ p = let z : q ≡ 0 = omega arith in rw z (omega arith) in
      subst (λ x. page_free m e i x ≡ true) at (f p small)) in
    omega arith
block_held m e (suc k) i q h lt f =
    let d = above k e in
    let n = 2 ^ e in
    let size = pow-above k e in
    let pos = page_free-pos m (suc d) i (q * n + 0) (f 0 (two-pow-pos e)) in
    elim (Bool-cases (ltb q (2 ^ k))) [
      | inl t ↦
          let inside =
            λ (p : ℕ) (small : p < n). block_inside q (2 ^ k) n p (ltb→lt q (2 ^ k) t) small in
          child_held m d i n h pos (
            inl (
              block_held m e k (left i) q h.0 (ltb→lt q (2 ^ k) t) (λ p small.
                page_free-left m d i (q * n + p) (rw size (inside p small)) (f p small))))
      | inr t ↦
          let r = q - 2 ^ k in
          let ge : 2 ^ k ≤ q = ground arith in
          let split : q ≡ r + 2 ^ k = omega arith in
          child_held m d i n h pos (
            inr (
              block_held m e k (right i) r h.1 (omega (arith, two-pow-suc k)) (λ p small.
                let at : q * n + p ≡ r * n + p + 2 ^ d = rw size (shifted q r (2 ^ k) n p split) in
                page_free-right m d i (r * n + p)
                  (subst (λ x. page_free m (suc d) i x ≡ true) at (f p small)))))
    ]
  where
    shifted : (q r k n p : ℕ) → q ≡ r + k → q * n + p ≡ r * n + p + k * n
    shifted q r k n p e = rw e (omega arith)

-- Some aligned block of `2 ^ e` pages of the allocator is free.
abbrev pub HasBlock : ℕ → ℕ → Buddy → Type 0
HasBlock d e b =
    (q : ℕ) × (q * 2 ^ e + 2 ^ e ≤ b.size)
    × ((p : ℕ) → p < 2 ^ e → is_free d b (q * 2 ^ e + p) ≡ true)

factor-lt : (q n k : ℕ) → q * n + n ≤ k * n → 1 ≤ n → q < k
factor-lt q n k h pos = grind arith

-- If an aligned block of `2 ^ e` pages is free then the root holds a request of that size.
pub HasBlock-holds :
    (d e : ℕ) (b : Buddy) → IsBuddy d b → e ≤ d → HasBlock d e b → 2 ^ e ≤ b.bitmap 0
HasBlock-holds d e b valid small (q, within, free) =
    let k = d - e in
    let depth = above-sub d e small in
    let size : b.size ≡ 2 ^ k * 2 ^ e =
      valid.pages ∙ subst (λ x. 2 ^ x ≡ 2 ^ k * 2 ^ e) depth (pow-above k e) in
    block_held b.bitmap e k 0 q (subst (λ x. IsTree b.bitmap x 0) (sym depth) valid.tree)
      (factor-lt q (2 ^ e) (2 ^ k) (rw size at within) (two-pow-pos e))
      (subst (λ x. (p : ℕ) → p < 2 ^ e → page_free b.bitmap x 0 (q * 2 ^ e + p) ≡ true) (sym depth)
        free)

-- `buddy_alloc` reports failure, by frame number 0 and with nothing changed, where the root does
-- not hold the rounded request of `2 ^ e` pages; and then no aligned block of that size is free.
pub buddy_alloc-full :
    (d e : ℕ) (b : Buddy) (n : ℕ)
    → IsBuddy d b
    → e ≤ d
    → round_request n ≡ 2 ^ e
    → b.bitmap 0 < 2 ^ e
    → (buddy_alloc b n ≡ some (0, b)) × (HasBlock d e b → ⊥)
buddy_alloc-full d e b n valid small rounds short = (
  unfold buddy_alloc in rw (rounds, lt→ltb (b.bitmap 0) (2 ^ e) short) refl,
  λ has. omega (arith, HasBlock-holds d e b valid small has),
)
