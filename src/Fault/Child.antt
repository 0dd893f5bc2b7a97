-- ===== src/Fault/Child.antt =====
-- What copy_vma_mem leaves for the child.
pub mod First
use simple_rv64os.Base.{
  ℕ, zero, suc, ◌+◌, ◌-◌, ◌*◌, ◌/◌, ◌%◌, ◌^◌, ◌<◌, ◌≤◌, ◌≡◌, ◌≢◌, refl, sym, ◌∙◌, ap, ◌⊎◌, inl, inr,
  Bool, true, false, Option, none, some, arith, ltb, leb, ◌&&◌, if◌then◌else◌, Bool-cases, lt→ltb,
  ge→ltb,
}
use simple_rv64os.Buddy.Take.{is_free}
use simple_rv64os.Paging.{Machine}
use simple_rv64os.Paging.Space.{view, Owner, IsSpace}
use simple_rv64os.Paging.Space.Grow.{DataKept, DataKept-trans}
use simple_rv64os.Paging.Space.Page.{page_at, free_count}
use simple_rv64os.Paging.Space.Range.{spans}
use simple_rv64os.Defs.{pa2va}
use simple_rv64os.Sched.Slots.{Option-cases}
use simple_rv64os.Fault.Filled.{frame_of, Filled}
use simple_rv64os.Fault.Walk.{IsData, IsData-kept, byte-kept, IsReadable, view-kept}

-- A page of the child leads to a frame with the bytes at `source`. The frame is in use, no table, and
-- was no page of data before.
pub record Copy (d : ℕ) (m : Machine) (owner : Owner) (child page rights source : ℕ) (m' : Machine)
    (owner' : Owner) : Type 0 where
  pub pfn : ℕ
  pub leads : view m'.memory child page ≡ some (frame_of pfn, rights)
  pub held : IsData d m' owner' (page_at pfn)
  pub fresh : (t : ℕ) → IsData d m owner t → t ≢ page_at pfn
  pub bytes : (i : ℕ) → i < 4096 → m'.memory (page_at pfn + i) ≡ m.memory (source + i)

-- Of the n pages from `first` on, those that the parent has are copied for the child; all other pages of
-- the child lead where they led.
pub record IsCopied (d : ℕ) (m : Machine) (owner : Owner) (parent child n first rights : ℕ)
    (m' : Machine) (owner' : Owner) : Type 0 where
  pub space : IsSpace d m' child owner'
  pub data_kept : DataKept d m owner m' owner'
  pub others :
      (page : ℕ)
      → page < 2 ^ 27
      → (page < first) ⊎ (first + n ≤ page)
      → view m'.memory child page ≡ view m.memory child page
  pub missing :
      (page : ℕ)
      → first ≤ page
      → page < first + n
      → view m.memory parent page ≡ none
      → view m'.memory child page ≡ view m.memory child page
  pub copies :
      (page frame its_rights : ℕ)
      → first ≤ page
      → page < first + n
      → view m.memory parent page ≡ some (frame, its_rights)
      → Copy d m owner child page rights (pa2va (frame * 4096)) m' owner'
  pub distinct :
      (p q : ℕ)
      → first ≤ p
      → p < q
      → q < first + n
      → view m.memory parent p ≢ none
      → view m.memory parent q ≢ none
      → view m'.memory child p ≢ view m'.memory child q
  pub room : free_count (2 ^ d) d m.buddy ≤ 3 * n + free_count (2 ^ d) d m'.buddy

pub none-IsCopied :
    (d : ℕ) (m : Machine) (owner : Owner) (parent child first rights : ℕ)
    → IsSpace d m child owner
    → IsCopied d m owner parent child 0 first rights m owner
none-IsCopied d m owner parent child first rights space = record {
  space = space;
  data_kept = λ p within used plain. (used, plain, λ b lo hi. refl);
  others = λ page low out. refl;
  missing = λ page lo hi here. refl;
  copies = λ page frame its_rights lo hi here. absurd (omega arith);
  distinct = λ p q lo lt hi has has' e. absurd (omega arith);
  room = omega arith;
}

-- A page that the parent lacks.
pub skipped-IsCopied :
    (d : ℕ) (m : Machine) (owner : Owner) (parent child first rights : ℕ)
    → IsSpace d m child owner
    → view m.memory parent first ≡ none
    → IsCopied d m owner parent child 1 first rights m owner
skipped-IsCopied d m owner parent child first rights space lacks = record {
  space = space;
  data_kept = λ p within used plain. (used, plain, λ b lo hi. refl);
  others = λ page low out. refl;
  missing = λ page lo hi here. refl;
  copies = λ page frame its_rights lo hi here.
      let same : page ≡ first = omega arith in
      absurd (cc (sym here ∙ ap (view m.memory parent) same ∙ lacks));
  distinct = λ p q lo lt hi has has' e. absurd (omega arith);
  room = omega arith;
}

unfoldable pub frame_in : Option (ℕ × ℕ) → ℕ
frame_in none = 0
frame_in (some (frame, rights)) = frame

pub Filled-IsCopied :
    (d : ℕ) (m : Machine) (owner : Owner) (parent child first rights pfn frame its_rights : ℕ)
    (m' : Machine) (owner' : Owner)
    → first < 2 ^ 27
    → view m.memory parent first ≡ some (frame, its_rights)
    → Filled d m child owner 1 first pfn rights m' owner'
    → ((i : ℕ) → i < 4096 → m'.memory (page_at pfn + i) ≡ m.memory (pa2va (frame * 4096) + i))
    → free_count (2 ^ d) d m.buddy ≤ 3 + free_count (2 ^ d) d m'.buddy
    → IsCopied d m owner parent child 1 first rights m' owner'
unfolding frame_in
Filled-IsCopied d m owner parent child first rights pfn frame its_rights m' owner' low leads filled
      bytes room =
    record {
      space = filled.space;
      data_kept = filled.data_kept;
      others = λ page low' out. filled.mapped page low' ∙ outside page out;
      missing = λ page lo hi lacks.
          let same : page ≡ first = omega arith in
          absurd (cc (sym lacks ∙ ap (view m.memory parent) same ∙ leads));
      copies = λ page frame' its_rights' lo hi here.
          let same : page ≡ first = omega arith in
          let both = sym leads ∙ ap (view m.memory parent) (sym same) ∙ here in
          let frames : frame ≡ frame' = ap (λ x. frame_in x) both in
          record {
            pfn = pfn;
            leads = filled.mapped page (omega arith) ∙ inside page same;
            held = record {
              page = pfn;
              start = refl;
              within = (filled.was_free pfn (omega arith) (omega arith)).0;
              used = (filled.now_used pfn (omega arith) (omega arith)).0;
              plain = (filled.now_used pfn (omega arith) (omega arith)).1;
            };
            fresh = λ t data_page e.
                let (_, free) = filled.was_free pfn (omega arith) (omega arith) in
                let q : data_page.page ≡ pfn = omega (arith, data_page.start) in
                absurd (cc (sym data_page.used ∙ ap (λ x. is_free d m.buddy x) q ∙ free));
            bytes = λ i lt. bytes i lt ∙ ap (λ x. m.memory (pa2va (x * 4096) + i)) frames;
          };
      distinct = λ p q lo lt hi has has' e. absurd (omega arith);
      room = omega (arith, room);
    }
  where
    outside :
        (page : ℕ)
        → (page < first) ⊎ (first + 1 ≤ page)
        → spans (view m.memory child) first 1 (frame_of pfn) rights page ≡ view m.memory child page
    outside page out =
        let away : (leb first page && ltb page (first + 1)) ≡ false = ground arith in rw away refl

    inside :
        (page : ℕ)
        → page ≡ first
        → spans (view m.memory child) first 1 (frame_of pfn) rights page
          ≡ some (frame_of pfn, rights)
    inside page e =
        let within : (leb first page && ltb page (first + 1)) ≡ true = ground arith in
        let offset : frame_of pfn + (page - first) ≡ frame_of pfn = omega arith in
        rw (within, offset) refl
