-- ===== src/Fault/Child/First.antt =====
-- One page copied, and then those that follow.
use simple_rv64os.Base.{
  ℕ, suc, ◌+◌, ◌*◌, ◌^◌, ◌<◌, ◌≤◌, ◌≡◌, ◌≢◌, sym, ◌∙◌, ap, ◌⊎◌, inl, inr, none, arith, ltb,
  Bool-cases,
}
use simple_rv64os.Paging.{Machine}
use simple_rv64os.Paging.Space.{view, Owner}
use simple_rv64os.Paging.Space.Grow.{DataKept-trans}
use simple_rv64os.Paging.Space.Page.{page_at}
use simple_rv64os.Defs.{pa2va}
use simple_rv64os.Sched.Slots.{Option-cases}
use simple_rv64os.Fault.Filled.{frame_of}
use simple_rv64os.Fault.Walk.{IsData, IsData-kept, byte-kept, IsReadable, view-kept}
use simple_rv64os.Fault.Child.{Copy, IsCopied, frame_in}

-- One page, and then the n that follow.
module _ (d : ℕ) (m m1 m2 : Machine) (owner o1 o2 : Owner) (parent child n first rights : ℕ)
    (small : first + suc n ≤ 2 ^ 27) (readable : IsReadable d m owner parent (suc n) first)
    (one : IsCopied d m owner parent child 1 first rights m1 o1)
    (more : IsCopied d m1 o1 parent child n (first + 1) rights m2 o2) where
  later :
      (page : ℕ)
      → first ≤ page
      → page < first + suc n
      → view m1.memory parent page ≡ view m.memory parent page
  later page lo hi =
      view-kept d m m1 owner o1 parent (suc n) first one.data_kept readable page lo hi

  copy-first :
      (page source : ℕ)
      → page ≡ first
      → Copy d m owner child page rights source m1 o1
      → Copy d m owner child page rights source m2 o2
  copy-first page source e copy = record {
    pfn = copy.pfn;
    leads = more.others page (omega arith) (inl (omega arith)) ∙ copy.leads;
    held = IsData-kept d m1 m2 o1 o2 more.data_kept (page_at copy.pfn) copy.held;
    fresh = copy.fresh;
    bytes = λ i lt.
        byte-kept d m1 m2 o1 o2 more.data_kept (page_at copy.pfn) copy.held (page_at copy.pfn + i)
          (omega arith) (omega arith)
        ∙ copy.bytes i lt;
  }

  copy-later :
      (page source : ℕ)
      → IsData d m owner source
      → Copy d m1 o1 child page rights source m2 o2
      → Copy d m owner child page rights source m2 o2
  copy-later page source from copy = record {
    pfn = copy.pfn;
    leads = copy.leads;
    held = copy.held;
    fresh = λ t before. copy.fresh t (IsData-kept d m m1 owner o1 one.data_kept t before);
    bytes = λ i lt.
        copy.bytes i lt
        ∙ byte-kept d m m1 owner o1 one.data_kept source from (source + i) (omega arith)
            (omega arith);
  }

  first-distinct :
      (q : ℕ)
      → first < q
      → q < first + suc n
      → view m.memory parent first ≢ none
      → view m.memory parent q ≢ none
      → view m2.memory child first ≢ view m2.memory child q
  unfolding frame_in
  first-distinct q lt hi has has' e = elim (Option-cases (view m.memory parent first)) [
    | inl lacks ↦ absurd (has lacks)
    | inr ((frame, its_rights), here) ↦ elim (Option-cases (view m.memory parent q)) [
      | inl lacks ↦ absurd (has' lacks)
      | inr ((frame', its_rights'), there) ↦
          let copy = one.copies first frame its_rights (omega arith) (omega arith) here in
          let copy' =
            more.copies q frame' its_rights' (omega arith) (omega arith)
              (later q (omega arith) hi ∙ there) in
          let leads = more.others first (omega arith) (inl (omega arith)) ∙ copy.leads in
          let same : frame_of copy.pfn ≡ frame_of copy'.pfn =
            ap frame_in (sym leads ∙ e ∙ copy'.leads) in
          copy'.fresh (page_at copy.pfn) copy.held (omega (arith, same))
    ]
  ]

  pub first-IsCopied : IsCopied d m owner parent child (suc n) first rights m2 o2
  first-IsCopied = record {
    space = more.space;
    data_kept = DataKept-trans d m m1 m2 owner o1 o2 one.data_kept more.data_kept;
    others = λ page low out.
        more.others page low (beyond page out) ∙ one.others page low (beside page out);
    missing = λ page lo hi lacks. elim (Bool-cases (ltb first page)) [
      | inl behind ↦
          let lo' : first + 1 ≤ page = ground arith in
          more.missing page lo' (omega arith) (later page lo hi ∙ lacks)
          ∙ one.others page (omega arith) (inr lo')
      | inr here ↦
          let hi' : page < first + 1 = ground arith in
          more.others page (omega arith) (inl hi') ∙ one.missing page lo hi' lacks
    ];
    copies = λ page frame its_rights lo hi there. elim (Bool-cases (ltb first page)) [
      | inl behind ↦
          copy-later page (pa2va (frame * 4096)) (readable.frames page frame its_rights lo hi there)
            (more.copies page frame its_rights (ground arith) (omega arith)
              (later page lo hi ∙ there))
      | inr here ↦
          copy-first page (pa2va (frame * 4096)) (ground arith)
            (one.copies page frame its_rights lo (ground arith) there)
    ];
    distinct = λ p q lo lt hi has has'. elim (Bool-cases (ltb first p)) [
      | inl behind ↦
          more.distinct p q (ground arith) lt (omega arith)
            (λ e. has (sym (later p lo (omega arith)) ∙ e))
            (λ e. has' (sym (later q (omega arith) hi) ∙ e))
      | inr here ↦
          let same : p ≡ first = ground arith in
          λ e.
            first-distinct q (omega arith) hi (λ x. has (ap (view m.memory parent) same ∙ x)) has'
              (ap (view m2.memory child) (sym same) ∙ e)
    ];
    room = omega (arith, one.room, more.room);
  }
    where
      beyond :
          (page : ℕ)
          → (page < first) ⊎ (first + suc n ≤ page)
          → (page < first + 1) ⊎ (first + 1 + n ≤ page)
      beyond page (inl before) = inl (omega arith)
      beyond page (inr behind) = inr (omega arith)

      beside :
          (page : ℕ) → (page < first) ⊎ (first + suc n ≤ page) → (page < first) ⊎ (first + 1 ≤ page)
      beside page (inl before) = inl before
      beside page (inr behind) = inr (omega arith)
