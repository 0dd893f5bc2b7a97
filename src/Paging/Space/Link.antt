-- ===== src/Paging/Space/Link.antt =====
-- A new table below an entry that was not valid: the tree grows, and the map from pages stays.
use simple_rv64os.Base.{
  ℕ, zero, suc, ◌+◌, ◌*◌, ◌%◌, ◌^◌, ◌<◌, ◌≤◌, ◌≡◌, ◌≢◌, sym, ◌∙◌, ap, subst, ◌⊎◌, inl, inr, true,
  none, some, List, [], ◌∷◌, arith, ◌==◌, Bool-cases, ==→eq, pow-le,
}
use simple_rv64os.Base.Arrays.{put, put-same, put-other}
use simple_rv64os.Base.Lists.{length}
use simple_rv64os.Buddy.{Buddy}
use simple_rv64os.Buddy.Take.{is_free}
use simple_rv64os.Bytes.{load64, store64}
use simple_rv64os.Bytes.Words.{Outside, load64-store64, store64-Outside, load64-zero}
use simple_rv64os.Paging.{Machine}
use simple_rv64os.Paging.Walk.{child, IsTable}
use simple_rv64os.Paging.Space.{look, digit, Owner, IsSpace}
use simple_rv64os.Paging.Space.Grow.{DataKept, Grows}
use simple_rv64os.Paging.Space.Look.{look-missing, look-step, look-agree_leaf, look-agree}
use simple_rv64os.Paging.Space.Page.{page_at, free_count, OnePage}
use simple_rv64os.Paging.Space.Apart.{
  page_at-IsTable, page_at-injective, page-kept, other-table, other-entry,
}

-- Two numbers are equal or not.
pub eq_or_ne : (a b : ℕ) → (a ≡ b) ⊎ (a ≢ b)
eq_or_ne a b = elim (Bool-cases (a == b)) [
  | inl e ↦ inl (==→eq a b e)
  | inr e ↦ inr (λ h. ground arith)
]

module _ (d : ℕ) (m : Machine) (root : ℕ) (owner : Owner) (space : IsSpace d m root owner)
    (small : d ≤ 25) (t : ℕ) (path : List ℕ) (i : ℕ) (at : owner t ≡ some path) (lt : i < 2 ^ 9)
    (short : length path < 2) (missing : load64 m.memory (t + 8 * i) % 2 ≡ 0) (pfn : ℕ) (b' : Buddy)
    (one : OnePage d m.buddy pfn b') (pte : ℕ) (valid : pte % 2 ≡ 1)
    (leads : child pte ≡ page_at pfn) (fits : pte < 2 ^ 64) where
  abbrev pub linked : Machine
  linked = record { memory = store64 m.memory (t + 8 * i) pte; buddy = b' }

  abbrev pub owner' : Owner
  owner' = put owner (page_at pfn) (some (i ∷ path))

  table : IsTable t
  table = space.is_table t path at

  low : (p : ℕ) → p < 2 ^ d → p < 2 ^ 25
  low p within = omega (arith, pow-le d 25 small)

  new_table : IsTable (page_at pfn)
  new_table = page_at-IsTable pfn (low pfn one.within)

  new-apart : (s : ℕ) (way : List ℕ) → owner s ≡ some way → s ≢ page_at pfn
  new-apart s way mine = space.in_use s way pfn mine one.within one.was_free

  others : (b : ℕ) → Outside (t + 8 * i) b → linked.memory b ≡ m.memory b
  others b out = store64-Outside m.memory (t + 8 * i) pte b out

  here : load64 linked.memory (t + 8 * i) ≡ pte
  here = load64-store64 m.memory (t + 8 * i) pte fits

  pub free-before :
      (p : ℕ) → p < 2 ^ d → is_free d b' p ≡ true → (p ≢ pfn) × (is_free d m.buddy p ≡ true)
  free-before p within free =
      let ne : p ≢ pfn = λ e. cc (sym one.gone ∙ subst (λ x. is_free d b' x ≡ true) e free) in
      (ne, sym (one.others p within ne) ∙ free)

  new-zero : (b : ℕ) → page_at pfn ≤ b → b < page_at pfn + 4096 → linked.memory b ≡ 0
  new-zero b lo hi =
      page-kept m.memory linked.memory t i table lt others (page_at pfn) b new_table.0
        (new-apart t path at) lo hi
      ∙ space.clean pfn b one.within one.was_free lo hi

  new-empty : (j : ℕ) → j < 2 ^ 9 → load64 linked.memory (page_at pfn + 8 * j) ≡ 0
  new-empty j small_j =
      load64-zero linked.memory (page_at pfn + 8 * j)
        (λ b lo hi. new-zero b (omega arith) (omega arith))

  pub owner'-old : (s : ℕ) (way : List ℕ) → owner s ≡ some way → owner' s ≡ some way
  owner'-old s way mine =
      put-other owner (page_at pfn) (some (i ∷ path)) s (λ e. new-apart s way mine (sym e)) ∙ mine

  pub owner'-new : owner' (page_at pfn) ≡ some (i ∷ path)
  owner'-new = put-same owner (page_at pfn) (some (i ∷ path))

  -- A table of the new tree is the new one or an old one.
  tables :
      (s : ℕ) (way : List ℕ)
      → owner' s ≡ some way
      → ((s ≡ page_at pfn) × (way ≡ i ∷ path)) ⊎ (owner s ≡ some way)
  tables s way mine = elim (eq_or_ne s (page_at pfn)) [
    | inl e ↦ inl (e, cc (sym (subst (λ x. owner' x ≡ some way) e mine) ∙ owner'-new))
    | inr ne ↦
        inr (sym (put-other owner (page_at pfn) (some (i ∷ path)) s (λ e. ne (sym e))) ∙ mine)
  ]

  entry-old :
      (s : ℕ) (way : List ℕ) (j : ℕ)
      → owner s ≡ some way
      → j < 2 ^ 9
      → ((s ≡ t) × (j ≡ i) × (way ≡ path))
        ⊎ (load64 linked.memory (s + 8 * j) ≡ load64 m.memory (s + 8 * j))
  entry-old s way j mine small_j = elim (eq_or_ne s t) [
    | inr ne ↦ inr (
        other-table m.memory linked.memory t i table lt others s j (space.is_table s way mine)
          small_j (λ e. ne (sym e)))
    | inl e ↦ elim (eq_or_ne j i) [
      | inl e' ↦ inl (e, e', cc (sym (subst (λ x. owner x ≡ some way) e mine) ∙ at))
      | inr ne ↦ inr (
          subst (λ x. load64 linked.memory (x + 8 * j) ≡ load64 m.memory (x + 8 * j)) (sym e)
            (other-entry m.memory linked.memory t i table lt others j (λ e'. ne (sym e'))))
    ]
  ]

  linked-down :
      (s : ℕ) (way : List ℕ) (j : ℕ)
      → owner' s ≡ some way
      → length way < 2
      → j < 2 ^ 9
      → load64 linked.memory (s + 8 * j) % 2 ≡ 1
      → owner' (child (load64 linked.memory (s + 8 * j))) ≡ some (j ∷ way)
  linked-down s way j mine less small_j ok = elim (tables s way mine) [
    | inl (e, _) ↦
        let none_here : load64 linked.memory (s + 8 * j) ≡ 0 =
          subst (λ x. load64 linked.memory (x + 8 * j) ≡ 0) (sym e) (new-empty j small_j) in
        absurd (omega arith)
    | inr old ↦ elim (entry-old s way j old small_j) [
      | inl (es, ej, ew) ↦
          let at_entry : load64 linked.memory (s + 8 * j) ≡ pte =
            ap (λ x. load64 linked.memory (x + 8 * j)) es
            ∙ ap (λ x. load64 linked.memory (t + 8 * x)) ej
            ∙ here in
          ap owner' (ap child at_entry ∙ leads)
          ∙ owner'-new
          ∙ ap (λ x. some (x ∷ path)) (sym ej)
          ∙ ap (λ x. some (j ∷ x)) (sym ew)
      | inr same ↦
          let below = space.down s way j old less small_j (ap (λ x. x % 2) (sym same) ∙ ok) in
          ap (λ x. owner' (child x)) same ∙ owner'-old _ (j ∷ way) below
    ]
  ]

  pub linked-IsSpace : IsSpace d linked root owner'
  linked-IsSpace = record {
    buddy = one.valid;
    zero_used =
        one.others 0 (omega (arith, one.within)) (λ e. omega (arith, one.nonzero))
        ∙ space.zero_used;
    at_root = owner'-old root [] space.at_root;
    is_table = λ s way mine. elim (tables s way mine) [
      | inl (e, _) ↦ subst IsTable (sym e) new_table
      | inr old ↦ space.is_table s way old
    ];
    in_use = λ s way p mine within free.
        let (ne, free_old) = free-before p within free in
        elim (tables s way mine) [
          | inl (e, _) ↦ λ e'. ne (page_at-injective p pfn (sym e' ∙ e))
          | inr old ↦ space.in_use s way p old within free_old
        ];
    down = linked-down;
    clean = λ p b within free lo hi.
        let (ne, free_old) = free-before p within free in
        page-kept m.memory linked.memory t i table lt others (page_at p) b
          (page_at-IsTable p (low p within)).0 (space.in_use t path p at within free_old) lo hi
        ∙ space.clean p b within free_old lo hi;
  }

  look-new : (k page : ℕ) → look k linked.memory (page_at pfn) page ≡ none
  look-new k page =
      let none_here = new-empty (digit k page) (omega arith) in
      look-missing k linked.memory (page_at pfn) page (ap (λ x. x % 2) none_here)

  -- Through the new entry no page is found, before or after.
  look-through :
      (k page : ℕ)
      → length path + k ≡ 2
      → digit k page ≡ i
      → look k linked.memory t page ≡ look k m.memory t page
  look-through zero page levels e = absurd (omega arith)
  look-through (suc k) page levels e =
      let entry : load64 linked.memory (t + 8 * digit (suc k) page) ≡ pte =
        ap (λ x. load64 linked.memory (t + 8 * x)) e ∙ here in
      look-step k linked.memory t page (ap (λ x. x % 2) entry ∙ valid)
      ∙ ap (λ x. look k linked.memory x page) (ap child entry ∙ leads)
      ∙ look-new k page
      ∙ sym (
          look-missing (suc k) m.memory t page
            (ap (λ x. load64 m.memory (t + 8 * x) % 2) e ∙ missing))

  -- Below any old table each page is found as before.
  pub look-linked :
      (k s : ℕ) (way : List ℕ) (page : ℕ)
      → owner s ≡ some way
      → length way + k ≡ 2
      → look k linked.memory s page ≡ look k m.memory s page
  look-linked zero s way page mine levels =
      elim (entry-old s way (digit 0 page) mine (omega arith)) [
        | inl (es, ej, ew) ↦ absurd (omega (arith, ap length ew))
        | inr same ↦ look-agree_leaf m.memory linked.memory s page same
      ]
  look-linked (suc k) s way page mine levels =
      let j = digit (suc k) page in
      elim (entry-old s way j mine (omega arith)) [
        | inl (es, ej, ew) ↦
            ap (λ x. look (suc k) linked.memory x page) es
            ∙ look-through (suc k) page (omega (arith, ap length ew)) ej
            ∙ ap (λ x. look (suc k) m.memory x page) (sym es)
        | inr same ↦ look-agree k m.memory linked.memory s page same (λ on.
            look-linked k (child (load64 m.memory (s + 8 * j))) (j ∷ way) page
              (space.down s way j mine (omega arith) (omega arith) on)
              (unfold length in omega arith))
      ]

  linked-DataKept : DataKept d m owner linked owner'
  linked-DataKept p within used data_page =
      let ne : p ≢ pfn =
        λ e. cc (sym used ∙ subst (λ x. is_free d m.buddy x ≡ true) (sym e) one.was_free) in
      let not_table : t ≢ page_at p = λ e. cc (sym at ∙ ap owner e ∙ data_page) in
      (
        one.others p within ne ∙ used,
        put-other owner (page_at pfn) (some (i ∷ path)) (page_at p)
              (λ e. ne (page_at-injective p pfn (sym e)))
            ∙ data_page,
        λ b lo hi.
            page-kept m.memory linked.memory t i table lt others (page_at p) b
              (page_at-IsTable p (low p within)).0 not_table lo hi,
      )

  pub linked-Grows :
      free_count (2 ^ d) d m.buddy ≤ 1 + free_count (2 ^ d) d b'
      → Grows d m root owner linked owner'
  linked-Grows room = record {
    space = linked-IsSpace;
    same = λ page. look-linked 2 root [] page space.at_root (unfold length in omega arith);
    tables = owner'-old;
    data_kept = linked-DataKept;
    room = room;
  }
