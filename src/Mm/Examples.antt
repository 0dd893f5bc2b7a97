-- ===== src/Mm/Examples.antt =====
-- The page interface at concrete inputs.
use simple_rv64os.Base.{
  ℕ, ◌+◌, ◌*◌, ◌^◌, ◌<◌, ◌≡◌, refl, some, arith, leb, ◌==◌, if◌then◌else◌, inl,
}
use simple_rv64os.Buddy.{Buddy, round_request}
use simple_rv64os.Buddy.Take.{IsBuddy, is_free, Takes}
use simple_rv64os.Defs.{vm_start}
use simple_rv64os.Mm.{alloc_pages, free_pages, buddy_init}
use simple_rv64os.Mm.Pages.{alloc_pages-Takes}
use simple_rv64os.Mm.Init.{buddy_init_lem}

-- Four pages, of which the first is the kernel's.
abbrev pub three_left : Buddy
three_left = record {
  size = 4;
  bitmap = λ i.
      if i == 0
      then 2
      else if i == 1
      then 1
      else if i == 2
      then 2
      else if i == 3
      then 0
      else if leb i 6
      then 1
      else 0;
}

pub three_left-IsBuddy : IsBuddy 2 three_left
three_left-IsBuddy = record {
  pages = refl;
  fits = omega arith;
  tree = ((omega arith, omega arith, inl refl), (omega arith, omega arith, inl refl), inl refl);
}

two_pages : round_request 2 ≡ 2 ^ 1
unfolding round_request
two_pages = refl

alloc_pages-Takes_example :
    (pfn va : ℕ) × (b' : Buddy) × (alloc_pages three_left 2 ≡ some (va, b'))
    × (va ≡ vm_start + pfn * 4096)
    × (0 < pfn)
    × Takes 2 1 three_left pfn b'
    × (free_pages b' va ≡ three_left)
alloc_pages-Takes_example =
    alloc_pages-Takes 2 1 three_left 2 three_left-IsBuddy (omega arith) refl two_pages (omega arith)

buddy_init_lem_example :
    (b : Buddy) × (buddy_init 0xffff_ffe0_0020_8000 (λ i. 7)
      ≡ some (b, 0xffff_ffe0_0020_8000 + 2 ^ 19))
    × IsBuddy 15 b
    × ((p : ℕ) → p < 2 ^ 15 → is_free 15 b p ≡ leb 648 p)
buddy_init_lem_example =
    buddy_init_lem 0xffff_ffe0_0020_8000 648 (λ i. 7) (omega arith) (omega arith) (omega arith)
      (omega arith)
