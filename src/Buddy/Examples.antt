-- ===== src/Buddy/Examples.antt =====
-- Tests of mm.c's allocator on four pages, and the theorems at concrete inputs.
use simple_rv64os.Base.{
  ℕ, ◌*◌, ◌^◌, ◌≤◌, ◌<◌, ◌≡◌, refl, inr, Bool, true, false, Option, none, some, arith, leb, ◌==◌,
  if◌then◌else◌,
}
use simple_rv64os.Buddy.{Buddy, upd, fixsize, round_request, buddy_alloc, buddy_free}
use simple_rv64os.Buddy.Tree.{IsFull, IsFull-IsTree}
use simple_rv64os.Buddy.Take.{IsBuddy, Takes, buddy_alloc-Takes}
use simple_rv64os.Buddy.Lowest.{TakesLowest, buddy_alloc-TakesLowest}
use simple_rv64os.Buddy.Room.{HasBlock, buddy_alloc-full}
use simple_rv64os.Buddy.Free.{Frees, buddy_free-Frees}
use simple_rv64os.Buddy.RoundTrip.{buddy_free-buddy_alloc}
use simple_rv64os.Buddy.Round.{round_request-least}

abbrev four : Buddy
four = record {
  size = 4;
  bitmap = λ i. if i == 0 then 4 else if leb i 2 then 2 else if leb i 6 then 1 else 0;
}

four-IsFull : IsFull four.bitmap 2 0
four-IsFull = (refl, (refl, refl, refl), (refl, refl, refl))

four-IsBuddy : IsBuddy 2 four
four-IsBuddy = record {
  pages = refl;
  fits = omega arith;
  tree = IsFull-IsTree four.bitmap 2 0 four-IsFull;
}

-- All four pages in use as one block.
abbrev four_used : Buddy
four_used = record { size = 4; bitmap = upd four.bitmap 0 0 }

four_used-IsBuddy : IsBuddy 2 four_used
four_used-IsBuddy = record {
  pages = refl;
  fits = omega arith;
  tree = (
    IsFull-IsTree four_used.bitmap 1 1 (refl, refl, refl),
    IsFull-IsTree four_used.bitmap 1 2 (refl, refl, refl),
    inr (refl, (refl, refl, refl), (refl, refl, refl)),
  );
}

rounds_up : (fixsize 3 ≡ 4) × (fixsize 33 ≡ 64) × (round_request 2 ≡ 2) × (round_request 0 ≡ 1)
unfolding fixsize round_request
rounds_up = (refl, refl, refl, refl)

second_is : ℕ → Option (ℕ × Buddy) → Bool
second_is n none = false
second_is n (some (pfn, b)) = elim (buddy_alloc b 2) [ none ↦ false | some (p, c) ↦ p == n ]

-- One page, then a block of two: page 0, then pages 2 and 3.
two_blocks : second_is 2 (buddy_alloc four 1) ≡ true
unfolding second_is buddy_alloc
two_blocks = refl

two_pages : round_request 2 ≡ 2 ^ 1
unfolding round_request
two_pages = refl

round_request-least_example :
    (e : ℕ) × (round_request 5 ≡ 2 ^ e)
    × (5 ≤ 2 ^ e)
    × ((1 ≤ 5 → 2 ^ e < 2 * 5) × (◌≡◌ {A = ℕ} 5 0 → e ≡ 0))
round_request-least_example = round_request-least 5 (omega arith)

buddy_alloc-Takes_example :
    (pfn : ℕ) × (b' : Buddy) × (buddy_alloc four 2 ≡ some (pfn, b')) × Takes 2 1 four pfn b'
buddy_alloc-Takes_example = buddy_alloc-Takes 2 1 four 2 four-IsBuddy two_pages (omega arith)

buddy_alloc-full_example :
    (buddy_alloc four_used 2 ≡ some (0, four_used)) × (HasBlock 2 1 four_used → ⊥)
buddy_alloc-full_example =
    buddy_alloc-full 2 1 four_used 2 four_used-IsBuddy (omega arith) two_pages (omega arith)

buddy_free-Frees_example : Frees 2 four_used 3 (buddy_free four_used 3)
buddy_free-Frees_example = buddy_free-Frees 2 four_used 3 four_used-IsBuddy (omega arith) refl

abbrev after_two : Buddy
after_two = record { size = 4; bitmap = upd (upd four.bitmap 1 0) 0 2 }

alloc_two : buddy_alloc four 2 ≡ some (0, after_two)
unfolding buddy_alloc
alloc_two = refl

buddy_free-buddy_alloc_example : buddy_free after_two 1 ≡ four
buddy_free-buddy_alloc_example =
    buddy_free-buddy_alloc 2 1 four 2 0 1 after_two four-IsBuddy two_pages (omega arith) alloc_two
      refl

buddy_alloc-TakesLowest_example :
    (pfn : ℕ) × (b' : Buddy) × (buddy_alloc four 1 ≡ some (pfn, b')) × TakesLowest 2 four pfn b'
buddy_alloc-TakesLowest_example = buddy_alloc-TakesLowest 2 four four-IsBuddy (omega arith)
