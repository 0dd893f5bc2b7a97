-- ===== src/Buddy/Lowest.antt =====
-- A single page is taken at the lowest free frame number.
use simple_rv64os.Base.{
  ℕ, zero, suc, ◌-◌, ◌^◌, ◌≤◌, ◌<◌, ◌≡◌, refl, sym, ◌∙◌, ap, subst, inl, inr, false, some, arith,
  ltb, leb, Bool-cases,
}
use simple_rv64os.Buddy.{Bitmap, Buddy, round_request, buddy_alloc}
use simple_rv64os.Buddy.Tree.{left, right, page_free}
use simple_rv64os.Buddy.Local.{page_free-zero}
use simple_rv64os.Buddy.Claim.{above, above-sub, claim}
use simple_rv64os.Buddy.Alloc.{offset, offset-le}
use simple_rv64os.Buddy.Pages.{offset-left, offset-right}
use simple_rv64os.Buddy.Take.{IsBuddy, is_free, Takes, Takes-run, run}

offset_lowest : (m : Bitmap) (k i p : ℕ) → p < offset m 0 k i → page_free m (above k 0) i p ≡ false
offset_lowest m zero i p lt = absurd (unfold offset in omega arith)
offset_lowest m (suc k) i p lt =
    let d = above k 0 in
    elim (Bool-cases (leb (2 ^ 0) (m (left i)))) [
      | inl t ↦
          let e = offset-left m 0 k i t in
          let less : p < offset m 0 k (left i) = omega (arith, e) in
          let within = offset-le m 0 k (left i) in ground (arith, offset_lowest m k (left i) p less)
      | inr t ↦
          let e = offset-right m 0 k i t in
          let none_left : m (left i) ≡ 0 = ground arith in
          elim (Bool-cases (ltb p (2 ^ d))) [
            | inl low ↦ ground (arith, page_free-zero m d (left i) p none_left)
            | inr high ↦
                let ge : 2 ^ d ≤ p = ground arith in
                let less : p - 2 ^ d < offset m 0 k (right i) = omega (arith, e) in
                ground (arith, offset_lowest m k (right i) (p - 2 ^ d) less)
          ]
    ]

-- `b'` is `b` with its lowest free page taken.
pub record TakesLowest (d : ℕ) (b : Buddy) (pfn : ℕ) (b' : Buddy) : Type 0 where
  pub takes : Takes d 0 b pfn b'
  pub lowest : (p : ℕ) → p < pfn → is_free d b p ≡ false

one_page : round_request 1 ≡ 2 ^ 0
unfolding round_request
one_page = refl

lowest_run :
    (k : ℕ) (b : Buddy)
    → IsBuddy (above k 0) b
    → 1 ≤ b.bitmap 0
    → (pfn : ℕ) × (b' : Buddy) × (buddy_alloc b 1 ≡ some (pfn, b'))
      × TakesLowest (above k 0) b pfn b'
lowest_run k b valid holds =
    let (pfn, b', runs, takes) = Takes-run b 1 0 k valid one_page holds in
    let same : ◌≡◌ {A = ℕ × Buddy} (pfn, b')
        (offset b.bitmap 0 k 0, record b { bitmap = claim b.bitmap (2 ^ 0) k 0 }) =
      cc (sym runs ∙ run b 1 0 k valid one_page holds) in
    let at : pfn ≡ offset b.bitmap 0 k 0 = ap (λ (x : ℕ × Buddy). x.0) same in
    (
      pfn,
      b',
      runs,
      record {
        takes = takes;
        lowest = λ p lt. offset_lowest b.bitmap k 0 p (subst (λ x. p < x) at lt);
      },
    )

-- With a free page left, buddy_alloc(1) returns and takes exactly the free page of the lowest
-- frame number.
pub buddy_alloc-TakesLowest :
    (d : ℕ) (b : Buddy)
    → IsBuddy d b
    → 1 ≤ b.bitmap 0
    → (pfn : ℕ) × (b' : Buddy) × (buddy_alloc b 1 ≡ some (pfn, b')) × TakesLowest d b pfn b'
buddy_alloc-TakesLowest d b valid holds =
    let depth = above-sub d 0 (omega arith) in
    subst
      (λ x. (pfn : ℕ) × (b' : Buddy) × (buddy_alloc b 1 ≡ some (pfn, b')) × TakesLowest x b pfn b')
      depth (lowest_run (d - 0) b (subst (λ x. IsBuddy x b) (sym depth) valid) holds)
