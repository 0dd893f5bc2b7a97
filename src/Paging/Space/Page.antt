-- ===== src/Paging/Space/Page.antt =====
-- One page from pkalloc, and how many are left.
use simple_rv64os.Base.{
  ℕ, zero, suc, ◌+◌, ◌*◌, ◌^◌, ◌<◌, ◌≤◌, ◌≡◌, ◌≢◌, refl, sym, ◌∙◌, subst, inl, inr, Bool, true,
  false, ◌&&◌, some, arith, ltb, ◌==◌, if◌then◌else◌, Bool-cases, pow-le, ne→==, ==→eq,
}
use simple_rv64os.Base.Word.{sub64}
use simple_rv64os.Defs.{vm_start, phy_start, pa2va_offset, pa2va, pfn2phys}
use simple_rv64os.Buddy.{Buddy, round_request, buddy_alloc}
use simple_rv64os.Buddy.Alloc.{in_block}
use simple_rv64os.Buddy.Take.{IsBuddy, is_free, Takes, buddy_alloc-Takes}
use simple_rv64os.Mm.{alloc_page, kalloc, pkalloc}

-- The kernel address of a page of the allocator.
abbrev pub page_at : ℕ → ℕ
page_at p = vm_start + p * 4096

-- How many of the first n pages are free.
unfoldable pub free_count : ℕ → ℕ → Buddy → ℕ
free_count zero d b = 0
free_count (suc n) d b = (if is_free d b n then 1 else 0) + free_count n d b

-- The allocator has lost the page `pfn`, which was free, and no other.
pub record OnePage (d : ℕ) (b : Buddy) (pfn : ℕ) (b' : Buddy) : Type 0 where
  pub valid : IsBuddy d b'
  pub nonzero : 0 < pfn
  pub within : pfn < 2 ^ d
  pub was_free : is_free d b pfn ≡ true
  pub gone : is_free d b' pfn ≡ false
  pub others : (p : ℕ) → p < 2 ^ d → p ≢ pfn → is_free d b' p ≡ is_free d b p

pub found :
    (n d : ℕ) (b : Buddy) → 1 ≤ free_count n d b → (p : ℕ) × (p < n) × (is_free d b p ≡ true)
unfolding free_count
found zero d b some_left = absurd (omega arith)
found (suc n) d b some_left = elim (Bool-cases (is_free d b n)) [
  | inl free ↦ (n, omega arith, free)
  | inr used ↦ let (p, lt, free) = found n d b (ground arith) in (p, omega arith, free)
]

pub count_below :
    (n d : ℕ) (b : Buddy) (pfn : ℕ) (b' : Buddy)
    → n ≤ 2 ^ d
    → OnePage d b pfn b'
    → free_count n d b ≡ (if ltb pfn n then 1 else 0) + free_count n d b'
unfolding free_count
count_below zero d b pfn b' le one = ground arith
count_below (suc n) d b pfn b' le one =
    let rest = count_below n d b pfn b' (omega arith) one in
    elim (Bool-cases (pfn == n)) [
      | inl here ↦
          let e : pfn ≡ n = ==→eq pfn n here in
          let free : is_free d b n ≡ true = subst (λ x. is_free d b x ≡ true) e one.was_free in
          let gone : is_free d b' n ≡ false = subst (λ x. is_free d b' x ≡ false) e one.gone in
          rw (free, gone) (ground arith)
      | inr other ↦
          let same : is_free d b' n ≡ is_free d b n =
            one.others n (omega arith) (λ e. ground arith) in
          rw same (ground arith)
    ]

pub is_free-root : (d : ℕ) (b : Buddy) (p : ℕ) → is_free d b p ≡ true → 1 ≤ b.bitmap 0
is_free-root zero b p free = ground arith
is_free-root (suc d) b p free = ground arith

one_page : round_request 1 ≡ 2 ^ 0
unfolding round_request
one_page = refl

Takes-OnePage :
    (d : ℕ) (b : Buddy) (pfn : ℕ) (b' : Buddy)
    → IsBuddy d b
    → is_free d b 0 ≡ false
    → Takes d 0 b pfn b'
    → OnePage d b pfn b'
Takes-OnePage d b pfn b' valid zero_used takes =
    let size = valid.pages in
    let within : pfn < 2 ^ d = omega (arith, takes.within) in
    let here : in_block pfn (2 ^ 0) pfn ≡ true = ground arith in
    let free = takes.was_free pfn (omega arith) here in
    record {
      valid = takes.valid;
      nonzero = elim (Bool-cases (pfn == 0)) [
        | inl z ↦
            let e : pfn ≡ 0 = ==→eq pfn 0 z in
            absurd (cc (sym zero_used ∙ subst (λ x. is_free d b x ≡ true) e free))
        | inr p ↦ ground arith
      ];
      within = within;
      was_free = free;
      gone = takes.pages pfn (omega arith) ∙ rw (here, free) refl;
      others = λ p lt ne.
          let out : in_block pfn (2 ^ 0) p ≡ false = ground arith in
          takes.pages p (omega arith) ∙ rw out (keep (is_free d b p));
    }
  where
    keep : (x : Bool) → (x && true) ≡ x
    keep true = refl
    keep false = refl

page_run :
    (b : Buddy) (pfn : ℕ) (b' : Buddy)
    → buddy_alloc b 1 ≡ some (pfn, b')
    → 0 < pfn
    → pfn < 2 ^ 25
    → (pkalloc b ≡ some (phy_start + pfn * 4096, b')) × (kalloc b ≡ some (page_at pfn, b'))
unfolding pkalloc kalloc alloc_page
page_run b pfn b' runs pos low =
    let nonzero : pfn ≢ 0 = λ e. omega arith in
    let va : pa2va (pfn2phys pfn) ≡ page_at pfn = omega arith in
    let pa : sub64 (pa2va (pfn2phys pfn)) pa2va_offset ≡ phy_start + pfn * 4096 = omega arith in
    let got : kalloc b ≡ some (page_at pfn, b') =
      rw (kalloc, alloc_page, runs, ne→== pfn 0 nonzero, va) refl in
    (rw (pkalloc, kalloc, alloc_page, runs, ne→== pfn 0 nonzero, pa) refl, got)

-- With a page left, pkalloc returns the address of a page that was free, and takes it.
pub pkalloc-OnePage :
    (d : ℕ) (b : Buddy)
    → IsBuddy d b
    → d ≤ 25
    → is_free d b 0 ≡ false
    → 1 ≤ free_count (2 ^ d) d b
    → (pfn : ℕ) × (b' : Buddy) × (pkalloc b ≡ some (phy_start + pfn * 4096, b'))
      × (kalloc b ≡ some (page_at pfn, b'))
      × OnePage d b pfn b'
      × (free_count (2 ^ d) d b ≡ 1 + free_count (2 ^ d) d b')
pkalloc-OnePage d b valid small zero_used left =
    let (p, lt, free) = found (2 ^ d) d b left in
    let (pfn, b', runs, takes) =
      buddy_alloc-Takes d 0 b 1 valid one_page (is_free-root d b p free) in
    let one = Takes-OnePage d b pfn b' valid zero_used takes in
    let bound = pow-le d 25 small in
    let low : pfn < 2 ^ 25 = omega (arith, one.within) in
    let (physical, virtual) = page_run b pfn b' runs one.nonzero low in
    (
      pfn,
      b',
      physical,
      virtual,
      one,
      count_below (2 ^ d) d b pfn b' (omega arith) one ∙ ground (arith, one.within),
    )

-- The same for kalloc, by the block it takes.
pub kalloc-Takes :
    (d : ℕ) (b : Buddy)
    → IsBuddy d b
    → d ≤ 25
    → is_free d b 0 ≡ false
    → 1 ≤ free_count (2 ^ d) d b
    → (pfn : ℕ) × (b' : Buddy) × (kalloc b ≡ some (page_at pfn, b')) × Takes d 0 b pfn b'
kalloc-Takes d b valid small zero_used left =
    let (p, lt, free) = found (2 ^ d) d b left in
    let (pfn, b', runs, takes) =
      buddy_alloc-Takes d 0 b 1 valid one_page (is_free-root d b p free) in
    let one = Takes-OnePage d b pfn b' valid zero_used takes in
    let bound = pow-le d 25 small in
    let (_, virtual) = page_run b pfn b' runs one.nonzero (omega (arith, one.within)) in
    (pfn, b', virtual, takes)
