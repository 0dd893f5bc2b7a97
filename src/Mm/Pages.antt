-- ===== src/Mm/Pages.antt =====
-- alloc_pages and free_pages.
use simple_rv64os.Base.{
  ℕ, ◌+◌, ◌*◌, ◌^◌, ◌≤◌, ◌<◌, ◌≡◌, refl, sym, ◌∙◌, ap, subst, true, false, Option, none, some,
  Bool-cases, inl, inr, arith, ◌==◌, ◌≢◌, ne→==, two-pow-pos, pow-le,
}
use simple_rv64os.Defs.{pa2va, pfn2phys, vm_start}
use simple_rv64os.Defs.Laws.{phys2pfn-va2pa}
use simple_rv64os.Buddy.{Buddy, round_request, buddy_alloc}
use simple_rv64os.Buddy.Take.{IsBuddy, is_free, Takes, buddy_alloc-Takes}
use simple_rv64os.Buddy.Alloc.{in_block}
use simple_rv64os.Buddy.RoundTrip.{buddy_free-buddy_alloc}
use simple_rv64os.Mm.{alloc_pages, free_pages, non_null}

-- What alloc_pages returns, from what buddy_alloc does.
module _ (d e : ℕ) (b : Buddy) (n pfn : ℕ) (b' : Buddy) (valid : IsBuddy d b) (small : d ≤ 25)
    (zero_used : is_free d b 0 ≡ false) (rounds : round_request n ≡ 2 ^ e)
    (holds : 2 ^ e ≤ b.bitmap 0) (runs : buddy_alloc b n ≡ some (pfn, b'))
    (takes : Takes d e b pfn b') where
  pfn-nonzero : pfn ≢ 0
  pfn-nonzero z = cc (
      sym zero_used
      ∙ takes.was_free 0 (omega (arith, valid.pages, two-pow-pos d))
          (subst (λ x. in_block x (2 ^ e) 0 ≡ true) (sym z) (ground (arith, two-pow-pos e))))

  pfn-lt : pfn < 2 ^ 25
  pfn-lt = omega (arith, takes.within, valid.pages, pow-le d 25 small, two-pow-pos e)

  alloc_pages_run : alloc_pages b n ≡ some (pa2va (pfn2phys pfn), b')
  unfolding alloc_pages
  alloc_pages_run = rw (runs, alloc_pages, ne→== pfn 0 pfn-nonzero) refl

  free_pages-alloc_pages : free_pages b' (pa2va (pfn2phys pfn)) ≡ b
  unfolding free_pages
  free_pages-alloc_pages =
      let first : in_block pfn (2 ^ e) pfn ≡ true = ground (arith, two-pow-pos e) in
      rw (phys2pfn-va2pa pfn (omega (arith, pfn-lt)))
        (buddy_free-buddy_alloc d e b n pfn pfn b' valid rounds holds runs first)

-- Where page 0 is in use and the root holds the rounded request of 2 ^ e pages, alloc_pages
-- returns the page-aligned kernel address of a block of free pages that ends within the
-- memory of the allocator, takes exactly that block, and free_pages of that address restores it.
pub alloc_pages-Takes :
    (d e : ℕ) (b : Buddy) (n : ℕ)
    → IsBuddy d b
    → d ≤ 25
    → is_free d b 0 ≡ false
    → round_request n ≡ 2 ^ e
    → 2 ^ e ≤ b.bitmap 0
    → (pfn va : ℕ) × (b' : Buddy) × (alloc_pages b n ≡ some (va, b'))
      × (va ≡ vm_start + pfn * 4096)
      × (0 < pfn)
      × Takes d e b pfn b'
      × (free_pages b' va ≡ b)
alloc_pages-Takes d e b n valid small zero_used rounds holds =
    let (pfn, b', runs, takes) = buddy_alloc-Takes d e b n valid rounds holds in
    let bound = pfn-lt d e b n pfn b' valid small zero_used rounds holds runs takes in
    let nonzero = pfn-nonzero d e b n pfn b' valid small zero_used rounds holds runs takes in
    (
      pfn,
      pa2va (pfn2phys pfn),
      b',
      alloc_pages_run d e b n pfn b' valid small zero_used rounds holds runs takes,
      omega arith,
      omega arith,
      takes,
      free_pages-alloc_pages d e b n pfn b' valid small zero_used rounds holds runs takes,
    )

-- An address that is not NULL passes.
pub non_null-some :
    {o : Option (ℕ × Buddy)} {va : ℕ} {b : Buddy}
    → o ≡ some (va, b)
    → 0 < va
    → non_null o ≡ some (va, b)
non_null-some {va = va} got pos =
    let nonzero : (va == 0) ≡ false = ne→== va 0 (λ e. omega arith) in
    ap non_null got ∙ rw nonzero refl

pub non_null-nonzero : (o : Option (ℕ × Buddy)) (r : ℕ × Buddy) → non_null o ≡ some r → r.0 ≢ 0
non_null-nonzero none r e zero_va = cc e
non_null-nonzero (some (va, b)) r e zero_va = elim (Bool-cases (va == 0)) [
  | inl null ↦
      let nothing : non_null (some (va, b)) ≡ none = rw null refl in absurd (cc (sym nothing ∙ e))
  | inr good ↦
      let same : non_null (some (va, b)) ≡ some (va, b) = rw good refl in
      let at : ◌≡◌ {A = ℕ × Buddy} (va, b) r = cc (sym same ∙ e) in
      let va_zero : va ≡ 0 = ap (λ x. x.0) at ∙ zero_va in absurd (ground arith)
]
