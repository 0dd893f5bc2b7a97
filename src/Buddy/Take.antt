-- ===== src/Buddy/Take.antt =====
-- `buddy_alloc` on a well-formed allocator: the block that it returns, and when it returns none.
use simple_rv64os.Base.{
  ℕ, zero, suc, ◌+◌, ◌-◌, ◌*◌, ◌^◌, ◌≤◌, ◌<◌, ◌≡◌, refl, sym, ◌∙◌, subst, inl, inr, Bool, true, not,
  ◌&&◌, some, arith, leb, two-pow-suc, two-pow-pos, Bool-cases, ge→ltb,
}
use simple_rv64os.Base.Word.{add64, sub64, mul64}
use simple_rv64os.Buddy.{Bitmap, Buddy, upd, round_request, descend, refresh, buddy_alloc}
use simple_rv64os.Buddy.Tree.{left, right, Fits, IsTree, page_free, IsTree-le, factor-le}
use simple_rv64os.Buddy.Claim.{
  above, above-sub, target, claim, descend_lem, refresh-claim, refresh-zero,
}
use simple_rv64os.Buddy.Alloc.{claim-Taken, offset, in_block, offset-le, target-offset}
use simple_rv64os.Buddy.Pages.{claim-pages, offset-left, offset-right}

-- A well-formed allocator of `2 ^ d` pages.
pub record IsBuddy (d : ℕ) (b : Buddy) : Type 0 where
  pub pages : b.size ≡ 2 ^ d
  pub fits : Fits d 0
  pub tree : IsTree b.bitmap d 0

-- Page `p` of the allocator is free.
abbrev pub is_free : ℕ → Buddy → ℕ → Bool
is_free d b p = page_free b.bitmap d 0 p

pub pow_exponent-le : (e d : ℕ) → 2 ^ e ≤ 2 ^ d → e ≤ d
pow_exponent-le zero d h = omega arith
pow_exponent-le (suc e) zero h = absurd (omega (arith, two-pow-suc e, two-pow-pos e))
pow_exponent-le (suc e) (suc d) h =
    omega (arith, pow_exponent-le e d (omega (arith, two-pow-suc e, two-pow-suc d)))

exponent-lt : (k : ℕ) → k < 2 ^ k
exponent-lt zero = omega arith
exponent-lt (suc k) = omega (arith, exponent-lt k, two-pow-suc k)

pow-le-above : (k e : ℕ) → 2 ^ k ≤ 2 ^ above k e
pow-le-above zero e = two-pow-pos e
pow-le-above (suc k) e = omega (arith, pow-le-above k e, two-pow-suc k, two-pow-suc (above k e))

pub pow-above : (k e : ℕ) → 2 ^ above k e ≡ 2 ^ k * 2 ^ e
pow-above zero e = omega arith
pow-above (suc k) e = rw (two-pow-suc (above k e), two-pow-suc k) (omega (arith, pow-above k e))

-- `(index + 1) * node_size - size` in 64 bits.
word_pfn :
    (t n s o : ℕ)
    → (t + 1) * n ≡ s + o
    → o + n ≤ s
    → 2 * s ≤ 2 ^ 60
    → 1 ≤ n
    → sub64 (mul64 (add64 t 1) n) s ≡ o
word_pfn t n s o e within fits pos =
    let small = factor-le (t + 1) n (2 ^ 60) pos (omega arith) in
    let index : add64 t 1 ≡ t + 1 = omega arith in
    let product : mul64 (t + 1) n ≡ s + o = rw e (omega arith) in rw (index, product) (omega arith)

-- The run of `buddy_alloc` on a request that the root holds, with the descent `k` levels long.
module _ (b : Buddy) (n e k : ℕ) (valid : IsBuddy (above k e) b) (rounds : round_request n ≡ 2 ^ e)
    (holds : 2 ^ e ≤ b.bitmap 0) where
  abbrev pub taken : Bitmap
  taken = claim b.bitmap (2 ^ e) k 0

  pfn_lem :
      sub64 (mul64 (add64 (target b.bitmap (2 ^ e) k 0) 1) (2 ^ e)) b.size ≡ offset b.bitmap e k 0
  pfn_lem = rw valid.pages (
      word_pfn (target b.bitmap (2 ^ e) k 0) (2 ^ e) (2 ^ above k e) (offset b.bitmap e k 0)
        (omega (arith, target-offset b.bitmap e k 0)) (offset-le b.bitmap e k 0) valid.fits
        (two-pow-pos e))

  steps : descend (suc b.size) b.bitmap (2 ^ e) b.size 0 ≡ some (target b.bitmap (2 ^ e) k 0, 2 ^ e)
  steps = rw valid.pages (
      descend_lem b.bitmap e k (suc (2 ^ above k e)) 0 valid.fits
        (omega (arith, exponent-lt k, pow-le-above k e)))

  climbs : let t = target b.bitmap (2 ^ e) k 0 in refresh t (upd b.bitmap t 0) t ≡ taken
  climbs = refresh-claim b.bitmap e k 0 valid.fits ∙ refresh-zero taken

  pub run : buddy_alloc b n ≡ some (offset b.bitmap e k 0, record b { bitmap = taken })
  unfolding buddy_alloc
  run = rw (rounds, ge→ltb (b.bitmap 0) (2 ^ e) holds, steps, pfn_lem, climbs) refl

offset-aligned : (m : Bitmap) (e k i : ℕ) → (q : ℕ) × (offset m e k i ≡ q * 2 ^ e)
offset-aligned m e zero i = (0, unfold offset in omega arith)
offset-aligned m e (suc k) i = elim (Bool-cases (leb (2 ^ e) (m (left i)))) [
  | inl t ↦ let (q, eq) = offset-aligned m e k (left i) in (q, offset-left m e k i t ∙ eq)
  | inr t ↦
      let (q, eq) = offset-aligned m e k (right i) in
      (q + 2 ^ k, offset-right m e k i t ∙ omega (arith, eq, pow-above k e))
]

-- `b'` is `b` with the pages of an aligned block of `2 ^ e` pages at `pfn`, all free, taken.
pub record Takes (d e : ℕ) (b : Buddy) (pfn : ℕ) (b' : Buddy) : Type 0 where
  pub valid : IsBuddy d b'
  pub within : pfn + 2 ^ e ≤ b.size
  pub aligned : (q : ℕ) × (pfn ≡ q * 2 ^ e)
  pub was_free : (p : ℕ) → p < b.size → in_block pfn (2 ^ e) p ≡ true → is_free d b p ≡ true
  pub pages :
      (p : ℕ) → p < b.size → is_free d b' p ≡ (is_free d b p && not (in_block pfn (2 ^ e) p))

pub Takes-run :
    (b : Buddy) (n e k : ℕ)
    → IsBuddy (above k e) b
    → round_request n ≡ 2 ^ e
    → 2 ^ e ≤ b.bitmap 0
    → (pfn : ℕ) × (b' : Buddy) × (buddy_alloc b n ≡ some (pfn, b')) × Takes (above k e) e b pfn b'
Takes-run b n e k valid rounds holds =
    let size = valid.pages in
    let exactly =
      λ (p : ℕ) (lt : p < b.size). claim-pages b.bitmap e k 0 p valid.tree holds (rw size at lt) in
    (
      offset b.bitmap e k 0,
      record b { bitmap = taken b n e k valid rounds holds },
      run b n e k valid rounds holds,
      record {
        valid = record {
          pages = size;
          fits = valid.fits;
          tree = (claim-Taken b.bitmap e k 0 valid.tree holds).0;
        };
        within = rw size (offset-le b.bitmap e k 0);
        aligned = offset-aligned b.bitmap e k 0;
        was_free = λ p lt. (exactly p lt).1;
        pages = λ p lt. (exactly p lt).0;
      },
    )

-- Where the root holds the rounded request of `2 ^ e` pages, `buddy_alloc` returns, and takes
-- exactly an aligned block of `2 ^ e` pages that were all free, at the frame number that it
-- returns; every other page is as before, and the allocator stays well formed.
pub buddy_alloc-Takes :
    (d e : ℕ) (b : Buddy) (n : ℕ)
    → IsBuddy d b
    → round_request n ≡ 2 ^ e
    → 2 ^ e ≤ b.bitmap 0
    → (pfn : ℕ) × (b' : Buddy) × (buddy_alloc b n ≡ some (pfn, b')) × Takes d e b pfn b'
buddy_alloc-Takes d e b n valid rounds holds =
    let small = pow_exponent-le e d (omega (arith, IsTree-le b.bitmap d 0 valid.tree)) in
    let depth = above-sub d e small in
    subst (λ x. (pfn : ℕ) × (b' : Buddy) × (buddy_alloc b n ≡ some (pfn, b')) × Takes x e b pfn b')
      depth (Takes-run b n e (d - e) (subst (λ x. IsBuddy x b) (sym depth) valid) rounds holds)
