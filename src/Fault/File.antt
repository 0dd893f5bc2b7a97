-- ===== src/Fault/File.antt =====
-- A part of the program's file in fresh pages, mapped.
use simple_rv64os.Base.{
  ℕ, ◌+◌, ◌-◌, ◌*◌, ◌/◌, ◌%◌, ◌^◌, ◌<◌, ◌≤◌, ◌≡◌, refl, ◌∙◌, ap, true, Option, none, some, arith,
  pow-le, two-pow-pos, bit_or,
}
use simple_rv64os.Base.Word.{add64, sub64, mul64}
use simple_rv64os.Bytes.{memset}
use simple_rv64os.Buddy.{Buddy, round_request}
use simple_rv64os.Buddy.Round.{round_request-least}
use simple_rv64os.Buddy.Take.{is_free}
use simple_rv64os.Defs.{pa2va_offset, pgrounddown, pgroundup, pgsize, phy_start, pte_v}
use simple_rv64os.Defs.Laws.{pgrounddown_lem, pgroundup_lem}
use simple_rv64os.Fault.{alloc_elf_mem, file_loop, section_pages}
use simple_rv64os.Fault.Filled.{frame_of, Filled, maps-Filled, maps-content, room-after}
use simple_rv64os.Mm.{alloc_pages, non_null}
use simple_rv64os.Mm.Pages.{alloc_pages-Takes, non_null-some}
use simple_rv64os.Paging.{Machine, map_loop}
use simple_rv64os.Paging.Space.{Owner, IsSpace}
use simple_rv64os.Paging.Space.Page.{page_at, free_count}
use simple_rv64os.Paging.Space.Block.{filled-IsSpace}
use simple_rv64os.Paging.Space.Range.{MapsRange-at, map_loop-MapsRange}
use simple_rv64os.Fault.Content.{placed, content-outside, content-inside}

-- The pages that hold `size` bytes from an address on.
abbrev pub pages_for : ℕ → ℕ → ℕ
pages_for where_to size = (where_to + size + 4095) / 4096 - where_to / 4096

alloc_elf_mem-run :
    (m : Machine) (file file_size size where_to root perm n pfn va : ℕ) (b' : Buddy)
    → where_to + size ≤ 2 ^ 39
    → n ≡ pages_for where_to size
    → non_null (alloc_pages m.buddy n) ≡ some (va, b')
    → va ≡ page_at pfn
    → pfn + n ≤ 2 ^ 25
    → alloc_elf_mem m file file_size size where_to root perm
      ≡ map_loop
          (n + 2)
          (record {
            memory =
                file_loop file_size 0
                  (memset m.memory (page_at pfn) 0 (n * 4096))
                  (page_at pfn)
                  (where_to % 4096)
                  file;
            buddy = b';
          })
          root
          (where_to / 4096 * 4096)
          (phy_start + pfn * 4096)
          ((where_to + size + 4095) / 4096 * 4096)
          perm
unfolding alloc_elf_mem section_pages
alloc_elf_mem-run m file file_size size where_to root perm n pfn va b' low count got at within =
    let down : pgrounddown where_to ≡ where_to / 4096 * 4096 =
      pgrounddown_lem where_to (omega arith) in
    let sum : add64 where_to size ≡ where_to + size = omega arith in
    let up : pgroundup (add64 where_to size) ≡ (where_to + size + 4095) / 4096 * 4096 =
      ap pgroundup sum ∙ pgroundup_lem (where_to + size) (omega arith) in
    let base = where_to / 4096 * 4096 in
    let top = (where_to + size + 4095) / 4096 * 4096 in
    let pages : sub64 top base / pgsize ≡ n = omega arith in
    let blanks : sub64 where_to base ≡ where_to % 4096 = omega arith in
    let bytes : mul64 n pgsize ≡ n * 4096 = omega arith in
    let pa : sub64 (page_at pfn) pa2va_offset ≡ phy_start + pfn * 4096 = omega arith in
    let whole : ℕ → ℕ → ℕ → Option Machine = λ start end k.
      elim (non_null (alloc_pages m.buddy k)) [
        | none ↦ none
        | some (x, b) ↦
            map_loop (k + 2)
              (record {
                memory =
                    file_loop file_size 0 (memset m.memory x 0 (mul64 k pgsize)) x
                      (sub64 where_to start) file;
                buddy = b;
              })
              root start (sub64 x pa2va_offset) end perm
      ] in
    let mapped : ℕ → ℕ → ℕ → ℕ → Option Machine = λ x zeros skip physical.
      map_loop (n + 2)
        (record {
          memory = file_loop file_size 0 (memset m.memory x 0 zeros) x skip file;
          buddy = b';
        })
        root base physical top perm in
    let allocated : whole base top n
        ≡ mapped va (mul64 n pgsize) (sub64 where_to base) (sub64 va pa2va_offset) =
      rw got refl in
    ap
      (λ x.
        whole x (pgroundup (add64 where_to size))
          (sub64 (pgroundup (add64 where_to size)) x / pgsize))
      down
    ∙ ap (λ x. whole base x (sub64 x base / pgsize)) up
    ∙ ap (whole base top) pages
    ∙ allocated
    ∙ ap (λ x. mapped x (mul64 n pgsize) (sub64 where_to base) (sub64 x pa2va_offset)) at
    ∙ ap (λ x. mapped (page_at pfn) x (sub64 where_to base) (sub64 (page_at pfn) pa2va_offset))
        bytes
    ∙ ap (λ x. mapped (page_at pfn) (n * 4096) x (sub64 (page_at pfn) pa2va_offset)) blanks
    ∙ ap (mapped (page_at pfn) (n * 4096) (where_to % 4096)) pa

-- On a tree of tables, where the root holds the rounded number of pages for `size` bytes at `where_to`,
-- enough pages are left for tables, and the file lies below every free page, alloc_elf_mem returns: the
-- pages lead to consecutive frames that were free, with the rights given; they hold the `file_size`
-- bytes of the file from `where_to` on, and zeros elsewhere; the tables are a tree still,
-- other pages lead where they led, and pages in use that are no tables keep their bytes.
pub alloc_elf_mem-Filled :
    (d : ℕ) (m : Machine) (root : ℕ) (owner : Owner) (file file_size size where_to perm : ℕ)
    → IsSpace d m root owner
    → d ≤ 25
    → where_to + size ≤ 2 ^ 39
    → file_size ≤ size
    → perm < 2 ^ 10
    → round_request (pages_for where_to size) ≤ m.buddy.bitmap 0
    → round_request (pages_for where_to size) + 2 * pages_for where_to size
      ≤ free_count (2 ^ d) d m.buddy
    → ((p : ℕ) → p < 2 ^ d → is_free d m.buddy p ≡ true → file + file_size ≤ page_at p)
    → (pfn : ℕ) × (m' : Machine) × (owner' : Owner) × (alloc_elf_mem m file file_size size where_to
          root perm
        ≡ some m')
      × Filled d m root owner
          (pages_for where_to size)
          (where_to / 4096)
          pfn
          (bit_or perm pte_v)
          m'
          owner'
      × ((b : ℕ)
          → page_at pfn ≤ b
          → b < page_at (pfn + pages_for where_to size)
          → m'.memory b ≡ placed m.memory (page_at pfn + where_to % 4096) file file_size b)
alloc_elf_mem-Filled d m root owner file file_size size where_to perm space small low part few holds
      left below =
    let n = pages_for where_to size in
    let skip = where_to % 4096 in
    let (e, rounds, within, _) = round_request-least n (omega arith) in
    let (pfn, va, b', got, at, _, takes, _) =
      alloc_pages-Takes d e m.buddy n space.buddy small space.zero_used rounds
        (omega (arith, rounds)) in
    let count = space.buddy.pages in
    let inside : pfn + 2 ^ e ≤ 2 ^ 25 = omega (arith, takes.within, count, pow-le d 25 small) in
    let under : file + file_size ≤ page_at pfn =
      below pfn (omega (arith, takes.within, count, two-pow-pos e)) (
        takes.was_free pfn (omega (arith, takes.within, two-pow-pos e))
          (ground (arith, two-pow-pos e))) in
    let memory' =
      file_loop file_size 0 (memset m.memory (page_at pfn) 0 (n * 4096)) (page_at pfn) skip file in
    let room : skip + file_size ≤ n * 4096 = omega arith in
    let others = content-outside m.memory pfn n e skip file file_size within inside room under in
    let mid : Machine = record { memory = memory'; buddy = b' } in
    let (m', o', run, maps) =
      map_loop-MapsRange d root ((where_to + size + 4095) / 4096 * 4096) perm (n + 2) n
        (where_to / 4096 * 4096) (phy_start + pfn * 4096) mid owner
        (filled-IsSpace d m root owner space small e pfn b' memory' takes others) small
        (omega (arith, rounds, room-after d e m root owner pfn b' space takes)) (omega arith)
        (omega arith) (omega arith) (omega arith) few in
    let maps' =
      MapsRange-at d mid root owner n m' o' _ (where_to / 4096) _ (frame_of pfn) _
        (bit_or perm pte_v) (omega arith) (omega arith) refl maps in
    (
      pfn,
      m',
      o',
      alloc_elf_mem-run m file file_size size where_to root perm n pfn va b' low refl
            (non_null-some got (omega (arith, at))) at (omega arith)
          ∙ run,
      maps-Filled d m root owner space small e pfn b' memory' takes others n (where_to / 4096)
          (bit_or perm pte_v) within m' o' maps',
      λ b lo hi.
          maps-content d m root owner space small e pfn b' memory' takes others n (where_to / 4096)
            (bit_or perm pte_v) within m' o' maps' b lo hi
          ∙ content-inside m.memory pfn n e skip file file_size within inside room under b lo hi,
    )
