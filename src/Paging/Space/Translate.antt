-- ===== src/Paging/Space/Translate.antt =====
-- The address that the walk of the three levels gives, by the map from pages to frames.
use simple_rv64os.Base.{
  ℕ, ◌+◌, ◌*◌, ◌/◌, ◌%◌, ◌^◌, ◌≡◌, refl, sym, ◌∙◌, ap, inl, inr, Option, none, some, arith,
}
use simple_rv64os.Bytes.{Bytes, load64}
use simple_rv64os.Paging.Walk.{child, translate}
use simple_rv64os.Paging.Map.{translate-some}
use simple_rv64os.Paging.Space.{look, digit, fields, view}
use simple_rv64os.Paging.Space.Look.{even_or_odd, look-missing, look-leaf, look-step}
use simple_rv64os.Paging.Space.Missing.{page_of}

-- The place at an offset in the frame of a page.
abbrev pub place : Option (ℕ × ℕ) → ℕ → Option ℕ
place none offset = none
place (some (frame, rights)) offset = some (frame * 4096 + offset)

pub translate-view :
    (memory : Bytes) (root va : ℕ)
    → translate memory root va ≡ place (view memory root (page_of va)) (va % 4096)
unfolding translate
translate-view memory root va =
    let page = page_of va in
    let i2 : digit 2 page ≡ va / 2 ^ 30 % 2 ^ 9 = omega arith in
    let i1 : digit 1 page ≡ va / 2 ^ 21 % 2 ^ 9 = omega arith in
    let i0 : digit 0 page ≡ va / 2 ^ 12 % 2 ^ 9 = omega arith in
    let pte2 = load64 memory (root + 8 * (va / 2 ^ 30 % 2 ^ 9)) in
    let e2 = ap (λ x. load64 memory (root + 8 * x)) i2 in
    let at = λ (x : Option ℕ). place (fields x) (va % 4096) in
    elim (even_or_odd pte2) [
      | inl off ↦
          rw off refl ∙ sym (ap at (look-missing 2 memory root page (ap (λ x. x % 2) e2 ∙ off)))
      | inr on2 ↦
          let mid = child pte2 in
          let pte1 = load64 memory (mid + 8 * (va / 2 ^ 21 % 2 ^ 9)) in
          let e1 = ap (λ x. load64 memory (mid + 8 * x)) i1 in
          let s2 : look 2 memory root page ≡ look 1 memory mid page =
            look-step 1 memory root page (ap (λ x. x % 2) e2 ∙ on2)
            ∙ ap (λ x. look 1 memory (child x) page) e2 in
          elim (even_or_odd pte1) [
            | inl off ↦
                rw (on2, off) refl
                ∙ sym (ap at (s2 ∙ look-missing 1 memory mid page (ap (λ x. x % 2) e1 ∙ off)))
            | inr on1 ↦
                let leaf = child pte1 in
                let pte0 = load64 memory (leaf + 8 * (va / 2 ^ 12 % 2 ^ 9)) in
                let e0 = ap (λ x. load64 memory (leaf + 8 * x)) i0 in
                let s1 : look 1 memory mid page ≡ look 0 memory leaf page =
                  look-step 0 memory mid page (ap (λ x. x % 2) e1 ∙ on1)
                  ∙ ap (λ x. look 0 memory (child x) page) e1 in
                elim (even_or_odd pte0) [
                  | inl off ↦
                      rw (on2, on1, off) refl
                      ∙ sym (
                          ap at
                            (s2 ∙ s1 ∙ look-missing 0 memory leaf page (ap (λ x. x % 2) e0 ∙ off)))
                  | inr on0 ↦
                      translate-some memory root mid leaf pte0 va on2 refl on1 refl refl on0
                      ∙ sym (
                          ap at (
                            s2
                            ∙ s1
                            ∙ look-leaf memory leaf page (ap (λ x. x % 2) e0 ∙ on0)
                            ∙ ap some e0))
                ]
          ]
    ]
