-- ===== src/Paging/Space/Block.antt =====
-- A block of pages taken and filled: the tree of tables stays, and the block is data.
use simple_rv64os.Base.{
  ℕ, zero, suc, ◌+◌, ◌-◌, ◌*◌, ◌/◌, ◌%◌, ◌^◌, ◌<◌, ◌≤◌, ◌≡◌, ◌≢◌, refl, sym, ◌∙◌, ap, subst, inl,
  inr, Bool, true, false, ◌&&◌, none, some, List, [], ◌∷◌, arith, ltb, leb, if◌then◌else◌,
  Bool-cases, pow-le, two-pow-pos,
}
use simple_rv64os.Base.Lists.{length}
use simple_rv64os.Buddy.{Buddy}
use simple_rv64os.Buddy.Alloc.{in_block}
use simple_rv64os.Buddy.Take.{IsBuddy, is_free, Takes}
use simple_rv64os.Bytes.{Bytes, load64}
use simple_rv64os.Bytes.Words.{load64-same}
use simple_rv64os.Paging.{Machine}
use simple_rv64os.Paging.Walk.{child}
use simple_rv64os.Sched.Slots.{Option-cases}
use simple_rv64os.Paging.Space.{look, digit, Owner, IsSpace}
use simple_rv64os.Paging.Space.Page.{page_at, free_count}
use simple_rv64os.Paging.Space.Apart.{page_at-IsTable}
use simple_rv64os.Paging.Space.Grow.{DataKept}
use simple_rv64os.Paging.Space.Look.{look-agree_leaf, look-agree}

-- An address in the block of n pages from `pfn` on.
abbrev pub in_pages : ℕ → ℕ → ℕ → Bool
in_pages pfn n b = leb (page_at pfn) b && ltb b (page_at (pfn + n))

-- Taking a block takes its pages from the count.
pub count_block :
    (k d e : ℕ) (b : Buddy) (pfn : ℕ) (b' : Buddy)
    → k ≤ 2 ^ d
    → IsBuddy d b
    → Takes d e b pfn b'
    → free_count k d b
      ≡ (if ltb k pfn then 0 else if ltb k (pfn + 2 ^ e) then k - pfn else 2 ^ e)
        + free_count k d b'
unfolding free_count
count_block zero d e b pfn b' le valid takes = ground (arith, two-pow-pos e)
count_block (suc k) d e b pfn b' le valid takes =
    let rest = count_block k d e b pfn b' (omega arith) valid takes in
    let size = valid.pages in
    let pages = takes.pages k (omega arith) in
    elim (Bool-cases (in_block pfn (2 ^ e) k)) [
      | inl here ↦
          let free = takes.was_free k (omega arith) here in
          let gone : is_free d b' k ≡ false = pages ∙ rw (here, free) refl in
          rw (free, gone) (ground arith)
      | inr out ↦
          let same : is_free d b' k ≡ is_free d b k = pages ∙ rw out (keep (is_free d b k)) in
          rw same (ground arith)
    ]
  where
    keep : (x : Bool) → (x && true) ≡ x
    keep true = refl
    keep false = refl

module _ (d : ℕ) (m : Machine) (root : ℕ) (owner : Owner) (space : IsSpace d m root owner)
    (small : d ≤ 25) (e pfn : ℕ) (b' : Buddy) (memory' : Bytes) (takes : Takes d e m.buddy pfn b')
    (others : (b : ℕ) → in_pages pfn (2 ^ e) b ≡ false → memory' b ≡ m.memory b) where
  abbrev pub filled : Machine
  filled = record { memory = memory'; buddy = b' }

  size : m.buddy.size ≡ 2 ^ d
  size = space.buddy.pages

  low : (p : ℕ) → p < 2 ^ d → p < 2 ^ 25
  low p within = omega (arith, pow-le d 25 small)

  pub block_free : (p : ℕ) → pfn ≤ p → p < pfn + 2 ^ e → (p < 2 ^ d) × (is_free d m.buddy p ≡ true)
  block_free p lo hi =
      let within : p < 2 ^ d = omega (arith, takes.within, size) in
      (within, takes.was_free p (omega (arith, size)) (ground arith))

  free-before : (p : ℕ) → p < 2 ^ d → is_free d b' p ≡ true → is_free d m.buddy p ≡ true
  free-before p within free = let pages = takes.pages p (omega (arith, size)) in ground arith

  free-outside : (p : ℕ) → p < 2 ^ d → is_free d b' p ≡ true → in_block pfn (2 ^ e) p ≡ false
  free-outside p within free = let pages = takes.pages p (omega (arith, size)) in ground arith

  -- A page that is not in the block keeps its bytes.
  page-kept :
      (q b : ℕ)
      → q % 4096 ≡ 0
      → ((p : ℕ) → pfn ≤ p → p < pfn + 2 ^ e → q ≢ page_at p)
      → q ≤ b
      → b < q + 4096
      → memory' b ≡ m.memory b
  page-kept q b start ne lo hi = elim (Bool-cases (in_pages pfn (2 ^ e) b)) [
    | inr out ↦ others b out
    | inl inside ↦
        let above : page_at pfn ≤ b = ground arith in
        let below : b < page_at (pfn + 2 ^ e) = ground arith in
        let p = (q - page_at 0) / 4096 in absurd (ne p (omega arith) (omega arith) (omega arith))
  ]

  table-kept :
      (t : ℕ) (path : List ℕ) (b : ℕ)
      → owner t ≡ some path
      → t ≤ b
      → b < t + 4096
      → memory' b ≡ m.memory b
  table-kept t path b mine lo hi =
      page-kept t b (space.is_table t path mine).0
        (λ p lo' hi'.
          let (within, free) = block_free p lo' hi' in space.in_use t path p mine within free)
        lo hi

  entry-kept :
      (t : ℕ) (path : List ℕ) (i : ℕ)
      → owner t ≡ some path
      → i < 2 ^ 9
      → load64 memory' (t + 8 * i) ≡ load64 m.memory (t + 8 * i)
  entry-kept t path i mine lt =
      load64-same memory' m.memory (t + 8 * i)
        (λ b lo hi. table-kept t path b mine (omega arith) (omega arith))

  pub filled-IsSpace : IsSpace d filled root owner
  filled-IsSpace = record {
    buddy = takes.valid;
    zero_used = takes.pages 0 (omega (arith, size, two-pow-pos d)) ∙ rw space.zero_used refl;
    at_root = space.at_root;
    is_table = space.is_table;
    in_use =
        λ t path p mine within free. space.in_use t path p mine within (free-before p within free);
    down = λ t path i mine short lt on.
        let same = entry-kept t path i mine lt in
        ap (λ x. owner (child x)) same
        ∙ space.down t path i mine short lt (ap (λ x. x % 2) (sym same) ∙ on);
    clean = λ p b within free lo hi.
        let out = free-outside p within free in
        page-kept (page_at p) b (page_at-IsTable p (low p within)).0
          (λ q lo' hi' same. ground arith) lo hi
        ∙ space.clean p b within (free-before p within free) lo hi;
  }

  look-filled :
      (k s : ℕ) (way : List ℕ) (page : ℕ)
      → owner s ≡ some way
      → length way + k ≡ 2
      → look k memory' s page ≡ look k m.memory s page
  look-filled zero s way page mine levels =
      look-agree_leaf m.memory memory' s page (entry-kept s way (digit 0 page) mine (omega arith))
  look-filled (suc k) s way page mine levels =
      let j = digit (suc k) page in
      look-agree k m.memory memory' s page (entry-kept s way j mine (omega arith)) (λ on.
        look-filled k (child (load64 m.memory (s + 8 * j))) (j ∷ way) page
          (space.down s way j mine (omega arith) (omega arith) on) (unfold length in omega arith))

  pub look-filled_root : (page : ℕ) → look 2 memory' root page ≡ look 2 m.memory root page
  look-filled_root page = look-filled 2 root [] page space.at_root (unfold length in omega arith)

  pub filled-DataKept : DataKept d m owner filled owner
  filled-DataKept p within used data_page =
      let pages = takes.pages p (omega (arith, size)) in
      (
        pages ∙ rw used refl,
        data_page,
        λ b lo hi.
            page-kept (page_at p) b (page_at-IsTable p (low p within)).0
              (λ q lo' hi' same.
                let (within', free) = block_free q lo' hi' in
                let e' : p ≡ q = omega arith in
                cc (sym used ∙ subst (λ x. is_free d m.buddy x ≡ true) (sym e') free))
              lo hi,
      )

  -- The pages of the block are in use now, and none of them is a table.
  pub block-is_data :
      (p : ℕ)
      → pfn ≤ p
      → p < pfn + 2 ^ e
      → (p < 2 ^ d) × (is_free d b' p ≡ false) × (owner (page_at p) ≡ none)
  block-is_data p lo hi =
      let (within, free) = block_free p lo hi in
      let inside : in_block pfn (2 ^ e) p ≡ true = ground arith in
      (
        within,
        takes.pages p (omega (arith, size)) ∙ rw (inside, free) refl,
        elim (Option-cases (owner (page_at p))) [
          | inl e' ↦ e'
          | inr (path, e') ↦ absurd (space.in_use (page_at p) path p e' within free refl)
        ],
      )
