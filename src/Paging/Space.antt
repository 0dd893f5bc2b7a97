-- ===== src/Paging/Space.antt =====
-- The tables below a root as a map from pages to frames and rights, and when they are a tree of pages of
-- their own: `owner` gives each page that serves as a table the indices on its way from the root, the
-- last first.
pub mod Page
pub mod Apart
pub mod Look
pub mod Link
pub mod Leaf
pub mod Grow
pub mod Descend
pub mod Missing
pub mod Refines
pub mod Range
pub mod Block
pub mod Final
pub mod Kernel
pub mod Fresh
mod Examples
pub mod Translate
use simple_rv64os.Base.{
  ℕ, zero, suc, ◌+◌, ◌*◌, ◌/◌, ◌%◌, ◌^◌, ◌<◌, ◌≤◌, ◌≡◌, ◌≢◌, Bool, true, false, Option, none, some,
  List, [], ◌∷◌, ◌==◌, if◌then◌else◌,
}
use simple_rv64os.Base.Lists.{length}
use simple_rv64os.Buddy.{Buddy}
use simple_rv64os.Buddy.Take.{IsBuddy, is_free}
use simple_rv64os.Bytes.{Bytes, load64}
use simple_rv64os.Paging.{Machine}
use simple_rv64os.Paging.Walk.{child, IsTable}
use simple_rv64os.Paging.Space.Page.{page_at}

-- The k-th nine bits of a page number.
abbrev pub digit : ℕ → ℕ → ℕ
digit k page = page / 2 ^ (9 * k) % 2 ^ 9

-- The valid entry for a page below a table of level k.
unfoldable pub look : ℕ → Bytes → ℕ → ℕ → Option ℕ
look zero memory t page =
    let pte = load64 memory (t + 8 * digit 0 page) in if pte % 2 == 0 then none else some pte
look (suc k) memory t page =
    let pte = load64 memory (t + 8 * digit (suc k) page) in
    if pte % 2 == 0 then none else look k memory (child pte) page

-- The frame and the rights of an entry.
abbrev pub fields : Option ℕ → Option (ℕ × ℕ)
fields none = none
fields (some pte) = some (pte / 2 ^ 10, pte % 2 ^ 10)

-- The frame and the rights of each page.
abbrev pub view : Bytes → ℕ → ℕ → Option (ℕ × ℕ)
view memory root page = fields (look 2 memory root page)

abbrev pub Owner : Type 0
Owner = ℕ → Option (List ℕ)

-- Every valid entry of a table that is no leaf leads to a table of its own; tables lie in pages in use;
-- and free pages hold zeros, which setup_pte relies on.
pub record IsSpace (d : ℕ) (m : Machine) (root : ℕ) (owner : Owner) : Type 0 where
  pub buddy : IsBuddy d m.buddy
  pub zero_used : is_free d m.buddy 0 ≡ false
  pub at_root : owner root ≡ some []
  pub is_table : (t : ℕ) (path : List ℕ) → owner t ≡ some path → IsTable t
  pub in_use :
      (t : ℕ) (path : List ℕ) (p : ℕ)
      → owner t ≡ some path
      → p < 2 ^ d
      → is_free d m.buddy p ≡ true
      → t ≢ page_at p
  pub down :
      (t : ℕ) (path : List ℕ) (i : ℕ)
      → owner t ≡ some path
      → length path < 2
      → i < 2 ^ 9
      → load64 m.memory (t + 8 * i) % 2 ≡ 1
      → owner (child (load64 m.memory (t + 8 * i))) ≡ some (i ∷ path)
  pub clean :
      (p b : ℕ)
      → p < 2 ^ d
      → is_free d m.buddy p ≡ true
      → page_at p ≤ b
      → b < page_at p + 4096
      → m.memory b ≡ 0
