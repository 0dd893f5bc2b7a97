-- ===== src/Paging/Walk.antt =====
-- map_final_pgtbl against a walk of the three levels as Sv39 describes it.
use simple_rv64os.Base.{
  ℕ, ◌+◌, ◌*◌, ◌/◌, ◌%◌, ◌^◌, ◌<◌, ◌≤◌, ◌≡◌, ◌≢◌, refl, sym, ◌∙◌, ap, subst, inl, inr, false,
  Option, none, some, arith, bit_or, ltb, ◌==◌, if◌then◌else◌, Bool-cases,
}
use simple_rv64os.Base.Masks.{or_disjoint}
use simple_rv64os.Defs.{addr2pte, pte2va, pte_v, pte_valid, pa2va_offset}
use simple_rv64os.Defs.Laws.{pte_valid_lem}
use simple_rv64os.Mm.{pkalloc}
use simple_rv64os.Sched.Slots.{Option-cases}
use simple_rv64os.Bytes.{Bytes, load64, store64}
use simple_rv64os.Bytes.Words.{Outside, load64-store64, store64-Outside}
use simple_rv64os.Paging.{Machine, entry, setup_pte, next_table}

-- The table a valid entry leads to, at its kernel address.
unfoldable pub child : ℕ → ℕ
child pte = (pa2va_offset + pte / 2 ^ 10 * 2 ^ 12) % 2 ^ 64

-- The physical address of va: three entries, the index of each nine bits of va, all valid.
unfoldable pub translate : Bytes → ℕ → ℕ → Option ℕ
translate memory pgtbl va =
    let pte2 = load64 memory (pgtbl + 8 * (va / 2 ^ 30 % 2 ^ 9)) in
    let pte1 = load64 memory (child pte2 + 8 * (va / 2 ^ 21 % 2 ^ 9)) in
    let pte0 = load64 memory (child pte1 + 8 * (va / 2 ^ 12 % 2 ^ 9)) in
    if pte2 % 2 == 0
    then none
    else if pte1 % 2 == 0
    then none
    else if pte0 % 2 == 0
    then none
    else some (pte0 / 2 ^ 10 * 2 ^ 12 + va % 2 ^ 12)

-- An address of a table: the start of a page.
abbrev pub IsTable : ℕ → Type 0
IsTable p = (p % 4096 ≡ 0) × (p < 2 ^ 64)

pub child-IsTable : (pte : ℕ) → IsTable (child pte)
unfolding child
child-IsTable pte = (omega arith, omega arith)

pub pte2va-child : (pte : ℕ) → pte2va pte ≡ child pte
unfolding child
pte2va-child pte = omega arith

pub entry_lem : (p i : ℕ) → IsTable p → i < 2 ^ 9 → entry p i ≡ p + 8 * i
entry_lem p i (aligned, fits) lt = omega arith

pub entry-apart :
    (p q i j : ℕ)
    → IsTable p
    → IsTable q
    → i < 2 ^ 9
    → j < 2 ^ 9
    → p ≢ q
    → (b : ℕ) → q + 8 * j ≤ b
    → b < q + 8 * j + 8
    → Outside (p + 8 * i) b
entry-apart p q i j (a, b) (c, d) lt lt' ne x lo hi = elim (Bool-cases (ltb p q)) [
  | inl less ↦ inr (ground arith)
  | inr more ↦ inl (away (ground arith))
]
  where
    away : q < p → x < p + 8 * i
    away less = omega arith

-- A new entry of a table is valid.
new-valid : (pa : ℕ) → bit_or (addr2pte pa) pte_v % 2 ≡ 1
new-valid pa =
    let frame : addr2pte pa ≡ addr2pte pa / 2 ^ 10 * 2 ^ 10 = omega arith in
    ap (λ x. bit_or x 1 % 2) frame
    ∙ rw (or_disjoint 10 (addr2pte pa / 2 ^ 10) 1 (omega arith)) (omega arith)

new-fits : (pa : ℕ) → bit_or (addr2pte pa) pte_v < 2 ^ 64
new-fits pa =
    let frame : addr2pte pa ≡ addr2pte pa / 2 ^ 10 * 2 ^ 10 = omega arith in
    let sum : bit_or (addr2pte pa) pte_v ≡ addr2pte pa / 2 ^ 10 * 2 ^ 10 + 1 =
      ap (λ x. bit_or x 1) frame ∙ or_disjoint 10 (addr2pte pa / 2 ^ 10) 1 (omega arith) in
    omega arith

-- What one level down leaves: a valid entry that leads to the table returned, and every other byte.
pub record Leads (m : Machine) (p i q : ℕ) (m' : Machine) : Type 0 where
  pub valid : load64 m'.memory (entry p i) % 2 ≡ 1
  pub leads : child (load64 m'.memory (entry p i)) ≡ q
  pub others : (a : ℕ) → Outside (entry p i) a → m'.memory a ≡ m.memory a

pub next_table-Leads :
    (m m' : Machine) (p i q : ℕ) → next_table m p i ≡ some (q, m') → Leads m p i q m'
unfolding next_table setup_pte
next_table-Leads m m' p i q e =
    let pte = load64 m.memory (entry p i) in
    elim (Bool-cases (pte_valid pte == 0)) [
      | inl missing ↦ elim (Option-cases (pkalloc m.buddy)) [
        | inl full ↦
            let run : next_table m p i ≡ none = rw (next_table, missing, full) refl in
            absurd (cc (sym run ∙ e))
        | inr ((pa, b), found) ↦
            let new = bit_or (addr2pte pa) pte_v in
            let made : Machine = record { memory = store64 m.memory (entry p i) new; buddy = b } in
            let nonzero : (pte2va new == 0) ≡ false = elim (Bool-cases (pte2va new == 0)) [
              | inl null ↦
                  let run : next_table m p i ≡ none = rw (next_table, missing, found, null) refl in
                  absurd (cc (sym run ∙ e))
              | inr good ↦ good
            ] in
            let run : next_table m p i ≡ some (pte2va new, made) =
              rw (next_table, missing, found, nonzero) refl in
            let both : ◌≡◌ {A = ℕ × Machine} (pte2va new, made) (q, m') = cc (sym run ∙ e) in
            let here : load64 made.memory (entry p i) ≡ new =
              load64-store64 m.memory (entry p i) new (new-fits pa) in
            subst (λ x. Leads m p i x.0 x.1) both
              (record {
                valid = ap (λ x. x % 2) here ∙ new-valid pa;
                leads = ap child here ∙ sym (pte2va-child new);
                others = λ a out. store64-Outside m.memory (entry p i) new a out;
              })
      ]
      | inr present ↦
          let run : next_table m p i ≡ some (pte2va pte, m) = rw (next_table, present) refl in
          let both : ◌≡◌ {A = ℕ × Machine} (pte2va pte, m) (q, m') = cc (sym run ∙ e) in
          subst (λ x. Leads m p i x.0 x.1) both
            (record {
              valid = ground (arith, pte_valid_lem pte);
              leads = sym (pte2va-child pte);
              others = λ a out. refl;
            })
    ]
