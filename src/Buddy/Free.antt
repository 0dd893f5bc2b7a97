-- ===== src/Buddy/Free.antt =====
-- `buddy_free` on a well-formed allocator: the block that it gives back.
use simple_rv64os.Base.{
  ℕ, zero, suc, ◌+◌, ◌^◌, ◌≤◌, ◌<◌, ◌≡◌, refl, sym, ◌∙◌, ap, subst, inl, inr, true, false, ◌||◌,
  arith, ltb, Bool-cases,
}
use simple_rv64os.Base.Word.{add64, sub64}
use simple_rv64os.Buddy.{Bitmap, Buddy, buddy_free}
use simple_rv64os.Buddy.Tree.{Fits, page_free}
use simple_rv64os.Buddy.Alloc.{in_block}
use simple_rv64os.Buddy.Take.{IsBuddy, is_free}
use simple_rv64os.Buddy.Release.{
  side, rest, leaf, block_exponent, block_start, release, release-IsTree,
}
use simple_rv64os.Buddy.Climb.{leaf_lem, find_used, rest-lt}
use simple_rv64os.Buddy.Freed.{block_start-le, release-pages}
use simple_rv64os.Buddy.Merge.{merge-release, merge-zero}

leaf_word : (d p : ℕ) → Fits d 0 → p < 2 ^ d → sub64 (add64 p (2 ^ d)) 1 ≡ leaf d 0 p
leaf_word d p h lt = omega (arith, leaf_lem d 0 p lt)

-- The run of `buddy_free` on a page in use is the recursion from the root.
pub buddy_free_run :
    (d : ℕ) (b : Buddy) (pfn : ℕ)
    → IsBuddy d b
    → pfn < 2 ^ d
    → is_free d b pfn ≡ false
    → buddy_free b pfn ≡ record b { bitmap = release b.bitmap d 0 pfn }
unfolding buddy_free
buddy_free_run d b pfn valid lt used =
    let at = ap (λ x. sub64 (add64 pfn x) 1) valid.pages ∙ leaf_word d pfn valid.fits lt in
    let climbs =
      merge-release b.bitmap d 0 pfn valid.fits valid.tree used
      ∙ merge-zero (release b.bitmap d 0 pfn) (2 ^ d) in
    rw (at, find_used b.bitmap d 0 pfn valid.fits lt used, climbs) refl

block-in :
    (m : Bitmap) (d i p : ℕ)
    → p < 2 ^ d
    → in_block (block_start m d i p) (2 ^ block_exponent m d i p) p ≡ true
unfolding block_start block_exponent
block-in m zero i p lt = ground arith
block-in m (suc d) i p lt =
    let ih = block-in m d (side d i p) (rest d p) (rest-lt d p lt) in
    elim (Bool-cases (page_free m d (side d i p) (rest d p))) [
      | inl t ↦ rw t (ground arith)
      | inr t ↦
          rw t (elim (Bool-cases (ltb p (2 ^ d))) [ inl u ↦ ground arith | inr u ↦ ground arith ])
    ]

-- `b'` is `b` with the pages of one block, page `pfn` among them and all in use, free again.
pub record Frees (d : ℕ) (b : Buddy) (pfn : ℕ) (b' : Buddy) : Type 0 where
  pub valid : IsBuddy d b'
  pub start : ℕ
  pub exponent : ℕ
  pub within : start + 2 ^ exponent ≤ b.size
  pub contains : in_block start (2 ^ exponent) pfn ≡ true
  pub was_used :
      (p : ℕ) → p < b.size → in_block start (2 ^ exponent) p ≡ true → is_free d b p ≡ false
  pub pages :
      (p : ℕ) → p < b.size → is_free d b' p ≡ (is_free d b p || in_block start (2 ^ exponent) p)

-- `buddy_free` on a page in use frees exactly one block of `2 ^ e` pages that were all in use, the
-- page among them; every other page is as before, and the allocator stays well formed.
pub buddy_free-Frees :
    (d : ℕ) (b : Buddy) (pfn : ℕ)
    → IsBuddy d b
    → pfn < b.size
    → is_free d b pfn ≡ false
    → Frees d b pfn (buddy_free b pfn)
buddy_free-Frees d b pfn valid lt used =
    let m = b.bitmap in
    let size = valid.pages in
    let small : pfn < 2 ^ d = rw size at lt in
    let exactly = λ (p : ℕ) (inside : p < b.size).
      release-pages m d 0 pfn p valid.tree used small (rw size at inside) in
    subst (Frees d b pfn) (sym (buddy_free_run d b pfn valid small used)) (record {
      valid = record {
        pages = size;
        fits = valid.fits;
        tree = release-IsTree m d 0 pfn valid.tree used;
      };
      start = block_start m d 0 pfn;
      exponent = block_exponent m d 0 pfn;
      within = rw size (block_start-le m d 0 pfn);
      contains = block-in m d 0 pfn small;
      was_used = λ p inside. (exactly p inside).1;
      pages = λ p inside. (exactly p inside).0;
    })
