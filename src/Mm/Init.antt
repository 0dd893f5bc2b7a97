-- ===== src/Mm/Init.antt =====
-- buddy_init: every page free, then the kernel's own pages taken.
use simple_rv64os.Base.{
  ℕ, zero, suc, ◌+◌, ◌-◌, ◌*◌, ◌/◌, ◌^◌, ◌≤◌, ◌<◌, ◌≡◌, refl, sym, ◌∙◌, ap, subst, inl, inr, true,
  not, ◌&&◌, some, arith, ltb, leb, ◌==◌, two-pow-suc, two-pow-pos, pow-le, Bool-cases, ltb→lt,
  lt→ltb, ge→ltb, leb→le, le→leb, ==→eq,
}
use simple_rv64os.Base.Word.{add64, sub64, mul64}
use simple_rv64os.Defs.{phy_start, pfn2phys, va2pa}
use simple_rv64os.Buddy.{Bitmap, Buddy, upd, buddy_alloc, is_power_of_2}
use simple_rv64os.Buddy.Tree.{left, right, IsFull, IsFull-IsTree, factor-le}
use simple_rv64os.Buddy.Local.{page_free-IsFull}
use simple_rv64os.Buddy.Alloc.{in_block}
use simple_rv64os.Buddy.Room.{page_free-pos}
use simple_rv64os.Buddy.Take.{IsBuddy, is_free}
use simple_rv64os.Buddy.Lowest.{buddy_alloc-TakesLowest}
use simple_rv64os.Buddy.Round.{is_power_of_2_pow}
use simple_rv64os.Mm.{fill, clear, fresh, reserve, with_end, reserved, buddy_size, buddy_init}
use simple_rv64os.Mm.Fill.{OnLevel, fill_begin, fill-below, fill-level}

-- Nodes on levels of the right sizes make a tree that is free throughout.
leveled-IsFull :
    (m : Bitmap) (t k d i : ℕ)
    → ((j l c : ℕ) → OnLevel l j → 2 ^ l * 2 ^ c ≡ t → m j ≡ 2 ^ c)
    → OnLevel k i
    → 2 ^ k * 2 ^ d ≡ t
    → IsFull m d i
leveled-IsFull m t k zero i h at e = h i k 0 at e
leveled-IsFull m t k (suc d) i h at e =
    let double = two-pow-suc k in
    let e' : 2 ^ suc k * 2 ^ d ≡ t =
      rw (two-pow-suc k)
        (swapped (2 ^ k) (2 ^ d) t (subst (λ x. 2 ^ k * x ≡ t) (two-pow-suc d) e)) in
    (
      h i k (suc d) at e,
      leveled-IsFull m t (suc k) d (left i) h (omega arith, omega arith) e',
      leveled-IsFull m t (suc k) d (right i) h (omega arith, omega arith) e',
    )
  where
    swapped : (a b t : ℕ) → a * (2 * b) ≡ t → 2 * a * b ≡ t
    swapped a b t e = omega arith

-- The bitmap that the loop of buddy_init leaves is free throughout.
pub fresh-IsFull : (d : ℕ) (memory : Bitmap) → d ≤ 50 → IsFull (fresh (2 ^ d) memory).bitmap d 0
unfolding fresh
fresh-IsFull d memory small =
    let size = 2 ^ d in
    let bound = pow-le d 50 small in
    let pos = two-pow-pos d in
    let m = clear size memory in
    let rounds : sub64 (mul64 2 size) 1 ≡ suc (2 * size - 2) = omega arith in
    let first : mul64 size 2 ≡ 2 * size = omega arith in
    let one : is_power_of_2 (0 + 1) ≡ true = is_power_of_2_pow 0 (omega arith) in
    let half : 2 * size / 2 ≡ size = omega arith in
    let begun = fill_begin (2 * size - 2) 0 (2 * size) m (omega arith) one in
    let n = 2 * size - 2 in
    let value : (j l c : ℕ)
        → OnLevel l j
        → 2 ^ l * 2 ^ c ≡ size
        → fill n (0 + 1) size (upd m 0 size) j ≡ 2 ^ c =
      λ j l c at e.
        let fits = factor-le (2 ^ l) (2 ^ c) size (two-pow-pos c) (omega arith) in
        elim (Bool-cases (j == 0)) [
          | inl z ↦
              let zero_j : j ≡ 0 = ==→eq j 0 z in
              let top : 2 ^ l ≡ 1 = omega (arith, two-pow-pos l) in
              let root : size ≡ 2 ^ c = root_size (2 ^ l) (2 ^ c) size top e in
              subst (λ x. fill n (0 + 1) size (upd m 0 size) x ≡ 2 ^ c) (sym zero_j)
                (fill-below n 1 size (upd m 0 size) 0 (omega arith) (omega arith) ∙ root)
          | inr nz ↦
              fill-level n 1 size 0 d (upd m 0 size) j l c (omega arith) (omega arith)
                (omega arith, omega arith) (omega arith) at e (ground arith) (omega arith)
        ] in
    rw (rounds, first)
      (subst (λ x. IsFull x d 0) (sym begun)
        (rw half (
          leveled-IsFull (fill n (0 + 1) size (upd m 0 size)) size 0 d 0 value
            (omega arith, omega arith) (omega arith))))
  where
    root_size : (a b t : ℕ) → a ≡ 1 → a * b ≡ t → t ≡ b
    root_size a b t one e = sym e ∙ ap (λ x. x * b) one ∙ omega arith

-- The pages below `k` are in use and the others free.
record Reserved (d k : ℕ) (b : Buddy) : Type 0 where
  valid : IsBuddy d b
  pages : (p : ℕ) → p < 2 ^ d → is_free d b p ≡ leb k p

-- One round: with pages left, the page taken is the next one.
reserve_page :
    (d k : ℕ) (b : Buddy)
    → Reserved d k b
    → k < 2 ^ d
    → (b' : Buddy) × ((pfn : ℕ) × (buddy_alloc b 1 ≡ some (pfn, b'))) × Reserved d (k + 1) b'
reserve_page d k b r room =
    let next = r.pages k room in
    let holds = page_free-pos b.bitmap d 0 k (next ∙ ground arith) in
    let (pfn, b', runs, t) = buddy_alloc-TakesLowest d b r.valid holds in
    let size = r.valid.pages in
    let inside : pfn < 2 ^ d = omega (arith, t.takes.within) in
    let free_at : is_free d b pfn ≡ true = t.takes.was_free pfn (rw size inside) (ground arith) in
    let up : k ≤ pfn = leb→le k pfn (sym (r.pages pfn inside) ∙ free_at) in
    let same : pfn ≡ k = elim (Bool-cases (ltb k pfn)) [
      | inl l ↦ absurd (cc (sym (t.lowest k (ltb→lt k pfn l)) ∙ next ∙ le→leb k k (omega arith)))
      | inr l ↦ ground arith
    ] in
    (
      b',
      (pfn, runs),
      record {
        valid = t.takes.valid;
        pages = λ p lt.
            t.takes.pages p (rw size lt)
            ∙ ap (λ c. c && not (in_block pfn (2 ^ 0) p)) (r.pages p lt)
            ∙ moved k pfn p same;
      },
    )
  where
    moved : (k pfn p : ℕ) → pfn ≡ k → (leb k p && not (in_block pfn (2 ^ 0) p)) ≡ leb (k + 1) p
    moved k pfn p e = ground arith

reserve_more :
    (fuel limit k : ℕ) (b b' : Buddy) (pfn : ℕ)
    → pfn2phys k < limit
    → buddy_alloc b 1 ≡ some (pfn, b')
    → reserve (suc fuel) limit k b ≡ reserve fuel limit (add64 k 1) b'
unfolding reserve
reserve_more fuel limit k b b' pfn lt runs = rw (lt→ltb (pfn2phys k) limit lt, runs, reserve) refl

reserve-Reserved :
    (fuel d k top limit : ℕ) (b : Buddy)
    → d ≤ 25
    → Reserved d k b
    → k ≤ top
    → top ≤ 2 ^ d
    → top < k + fuel
    → limit ≤ phy_start + 4096 * top
    → phy_start + 4096 * top < limit + 4096
    → (b' : Buddy) × (reserve fuel limit k b ≡ some b') × Reserved d top b'
unfolding reserve
reserve-Reserved zero d k top limit b small r le inside fuel hi lo = absurd (omega arith)
reserve-Reserved (suc fuel) d k top limit b small r le inside enough hi lo =
    let bound = pow-le d 25 small in
    let at : pfn2phys k ≡ phy_start + 4096 * k = omega arith in
    elim (Bool-cases (ltb k top)) [
      | inl more ↦
          let less = ltb→lt k top more in
          let (b', (pfn, runs), r') = reserve_page d k b r (omega arith) in
          let (b'', rest, done) =
            reserve-Reserved fuel d (k + 1) top limit b' small r' (omega arith) inside (omega arith)
              hi lo in
          let next : add64 k 1 ≡ k + 1 = omega arith in
          (
            b'',
            reserve_more fuel limit k b b' pfn (rw at (omega arith)) runs
                ∙ ap (λ x. reserve fuel limit x b') next
                ∙ rest,
            done,
          )
      | inr last ↦
          let same : k ≡ top = ground arith in
          (b, rw (ge→ltb (pfn2phys k) limit (omega arith)) refl, subst (λ x. Reserved d x b) same r)
    ]

buddy_size_lem : buddy_size ≡ 2 ^ 15
unfolding buddy_size is_power_of_2
buddy_size_lem = refl

fresh-Reserved : (d : ℕ) (memory : Bitmap) → d ≤ 50 → Reserved d 0 (fresh (2 ^ d) memory)
fresh-Reserved d memory small =
    let full = fresh-IsFull d memory small in
    let bound = pow-le d 50 small in
    record {
      valid = record {
        pages = unfold fresh in refl;
        fits = omega arith;
        tree = IsFull-IsTree (fresh (2 ^ d) memory).bitmap d 0 full;
      };
      pages = λ p lt.
          page_free-IsFull (fresh (2 ^ d) memory).bitmap d 0 p full
          ∙ sym (le→leb 0 p (omega arith));
    }

-- Where the kernel with the bitmap behind it ends within the 128 MB of memory, `top` pages from its
-- start, buddy_init returns a well-formed allocator of 2 ^ 15 pages in which the first `top` pages
-- are in use and all others free, whatever memory held before.
pub buddy_init_lem :
    (ekernel top : ℕ) (memory : Bitmap)
    → ekernel + 2 ^ 19 < 2 ^ 64
    → va2pa (ekernel + 2 ^ 19) ≤ phy_start + 4096 * top
    → phy_start + 4096 * top < va2pa (ekernel + 2 ^ 19) + 4096
    → top ≤ 2 ^ 15
    → (b : Buddy) × (buddy_init ekernel memory ≡ some (b, ekernel + 2 ^ 19))
      × IsBuddy 15 b
      × ((p : ℕ) → p < 2 ^ 15 → is_free 15 b p ≡ leb top p)
unfolding buddy_init reserved with_end
buddy_init_lem ekernel top memory fits hi lo inside =
    let start = fresh-Reserved 15 memory (omega arith) in
    let (b, runs, r) =
      reserve-Reserved (suc (2 ^ 52)) 15 0 top (va2pa (ekernel + 2 ^ 19)) (fresh (2 ^ 15) memory)
        (omega arith) start (omega arith) inside (omega arith) hi lo in
    let end : add64 ekernel (mul64 (mul64 2 (2 ^ 15)) 8) ≡ ekernel + 2 ^ 19 = omega arith in
    (b, init_run b ekernel memory end runs, r.valid, r.pages)
  where
    init_run :
        (b : Buddy) (ekernel : ℕ) (memory : Bitmap)
        → add64 ekernel (mul64 (mul64 2 (2 ^ 15)) 8) ≡ ekernel + 2 ^ 19
        → reserve (suc (2 ^ 52)) (va2pa (ekernel + 2 ^ 19)) 0 (fresh (2 ^ 15) memory) ≡ some b
        → buddy_init ekernel memory ≡ some (b, ekernel + 2 ^ 19)
    init_run b ekernel memory end runs =
        ap (λ n. reserved n (add64 ekernel (mul64 (mul64 2 n) 8)) memory) buddy_size_lem
        ∙ ap (λ x. reserved (2 ^ 15) x memory) end
        ∙ ap (with_end (ekernel + 2 ^ 19)) runs
