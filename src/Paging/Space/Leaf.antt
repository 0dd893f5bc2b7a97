-- ===== src/Paging/Space/Leaf.antt =====
-- An entry of a leaf table written: the tree stays, and only the page of that entry changes.
use simple_rv64os.Base.{
  ℕ, zero, suc, ◌+◌, ◌*◌, ◌%◌, ◌^◌, ◌<◌, ◌≤◌, ◌≡◌, ◌≢◌, sym, ◌∙◌, ap, subst, ◌⊎◌, inl, inr, some,
  List, ◌∷◌, arith, pow-le,
}
use simple_rv64os.Base.Lists.{length}
use simple_rv64os.Bytes.{load64, store64}
use simple_rv64os.Bytes.Words.{Outside, store64-Outside}
use simple_rv64os.Paging.{Machine}
use simple_rv64os.Paging.Walk.{child, IsTable}
use simple_rv64os.Paging.Space.{look, digit, Owner, IsSpace}
use simple_rv64os.Paging.Space.Page.{page_at}
use simple_rv64os.Paging.Space.Apart.{page_at-IsTable, page-kept, other-table, other-entry}
use simple_rv64os.Paging.Space.Look.{look-agree_leaf, look-agree}
use simple_rv64os.Paging.Space.Link.{eq_or_ne}

-- The indices on the way to the entry of a page, below a table of level k.
abbrev pub trail : ℕ → ℕ → List ℕ → List ℕ
trail zero page path = digit 0 page ∷ path
trail (suc k) page path = trail k page (digit (suc k) page ∷ path)

module _ (d : ℕ) (m : Machine) (root : ℕ) (owner : Owner) (space : IsSpace d m root owner)
    (small : d ≤ 25) (leaf : ℕ) (path : List ℕ) (i : ℕ) (at : owner leaf ≡ some path)
    (deep : length path ≡ 2) (lt : i < 2 ^ 9) (pte : ℕ) where
  abbrev pub written : Machine
  written = record m { memory = store64 m.memory (leaf + 8 * i) pte }

  table : IsTable leaf
  table = space.is_table leaf path at

  others : (b : ℕ) → Outside (leaf + 8 * i) b → written.memory b ≡ m.memory b
  others b out = store64-Outside m.memory (leaf + 8 * i) pte b out

  entry-old :
      (s : ℕ) (way : List ℕ) (j : ℕ)
      → owner s ≡ some way
      → j < 2 ^ 9
      → ((j ≡ i) × (way ≡ path)) ⊎ (load64 written.memory (s + 8 * j) ≡ load64 m.memory (s + 8 * j))
  entry-old s way j mine small_j = elim (eq_or_ne s leaf) [
    | inr ne ↦ inr (
        other-table m.memory written.memory leaf i table lt others s j (space.is_table s way mine)
          small_j (λ e. ne (sym e)))
    | inl e ↦ elim (eq_or_ne j i) [
      | inl e' ↦ inl (e', cc (sym (subst (λ x. owner x ≡ some way) e mine) ∙ at))
      | inr ne ↦ inr (
          subst (λ x. load64 written.memory (x + 8 * j) ≡ load64 m.memory (x + 8 * j)) (sym e)
            (other-entry m.memory written.memory leaf i table lt others j (λ e'. ne (sym e'))))
    ]
  ]

  pub written-IsSpace : IsSpace d written root owner
  written-IsSpace = record {
    buddy = space.buddy;
    zero_used = space.zero_used;
    at_root = space.at_root;
    is_table = space.is_table;
    in_use = space.in_use;
    down = λ s way j mine less small_j ok. elim (entry-old s way j mine small_j) [
      | inl (_, ew) ↦ absurd (omega (arith, ap length ew))
      | inr same ↦
          ap (λ x. owner (child x)) same
          ∙ space.down s way j mine less small_j (ap (λ x. x % 2) (sym same) ∙ ok)
    ];
    clean = λ p b within free lo hi.
        page-kept m.memory written.memory leaf i table lt others (page_at p) b
          (page_at-IsTable p (omega (arith, pow-le d 25 small))).0
          (space.in_use leaf path p at within free) lo hi
        ∙ space.clean p b within free lo hi;
  }

  -- A page whose entry is another one is found as before.
  pub look-written :
      (k s : ℕ) (way : List ℕ) (page : ℕ)
      → owner s ≡ some way
      → length way + k ≡ 2
      → trail k page way ≢ i ∷ path
      → look k written.memory s page ≡ look k m.memory s page
  look-written zero s way page mine levels miss =
      elim (entry-old s way (digit 0 page) mine (omega arith)) [
        | inl (ej, ew) ↦ absurd (miss (ap (λ x. x ∷ way) ej ∙ ap (λ x. i ∷ x) ew))
        | inr same ↦ look-agree_leaf m.memory written.memory s page same
      ]
  look-written (suc k) s way page mine levels miss =
      let j = digit (suc k) page in
      elim (entry-old s way j mine (omega arith)) [
        | inl (ej, ew) ↦ absurd (omega (arith, ap length ew))
        | inr same ↦ look-agree k m.memory written.memory s page same (λ on.
            look-written k (child (load64 m.memory (s + 8 * j))) (j ∷ way) page
              (space.down s way j mine (omega arith) (omega arith) on)
              (unfold length in omega arith) miss)
      ]
