-- ===== src/Paging/Space/Look.antt =====
-- One level of the search for a page.
use simple_rv64os.Base.{
  ℕ, zero, suc, ◌+◌, ◌*◌, ◌%◌, ◌≡◌, refl, sym, ◌∙◌, ap, ◌⊎◌, inl, inr, none, some, arith,
  Bool-cases, ◌==◌, ==→eq,
}
use simple_rv64os.Bytes.{Bytes, load64}
use simple_rv64os.Paging.Walk.{child}
use simple_rv64os.Paging.Space.{look, digit}

pub even_or_odd : (n : ℕ) → (n % 2 ≡ 0) ⊎ (n % 2 ≡ 1)
even_or_odd n = elim (Bool-cases (n % 2 == 0)) [
  | inl e ↦ inl (==→eq (n % 2) 0 e)
  | inr e ↦ inr (ground arith)
]

pub look-missing :
    (k : ℕ) (memory : Bytes) (s page : ℕ)
    → load64 memory (s + 8 * digit k page) % 2 ≡ 0
    → look k memory s page ≡ none
unfolding look
look-missing zero memory s page e = rw e refl
look-missing (suc k) memory s page e = rw e refl

pub look-leaf :
    (memory : Bytes) (s page : ℕ)
    → load64 memory (s + 8 * digit 0 page) % 2 ≡ 1
    → look 0 memory s page ≡ some (load64 memory (s + 8 * digit 0 page))
unfolding look
look-leaf memory s page e = rw e refl

pub look-step :
    (k : ℕ) (memory : Bytes) (s page : ℕ)
    → load64 memory (s + 8 * digit (suc k) page) % 2 ≡ 1
    → look (suc k) memory s page
      ≡ look k memory (child (load64 memory (s + 8 * digit (suc k) page))) page
unfolding look
look-step k memory s page e = rw e refl

-- Where two memories agree on the entry, and below it where it is valid, they agree on the page.
pub look-agree_leaf :
    (memory memory' : Bytes) (s page : ℕ)
    → load64 memory' (s + 8 * digit 0 page) ≡ load64 memory (s + 8 * digit 0 page)
    → look 0 memory' s page ≡ look 0 memory s page
unfolding look
look-agree_leaf memory memory' s page same = rw same refl

pub look-agree :
    (k : ℕ) (memory memory' : Bytes) (s page : ℕ)
    → load64 memory' (s + 8 * digit (suc k) page) ≡ load64 memory (s + 8 * digit (suc k) page)
    → (load64 memory (s + 8 * digit (suc k) page) % 2 ≡ 1
        → look k memory' (child (load64 memory (s + 8 * digit (suc k) page))) page
          ≡ look k memory (child (load64 memory (s + 8 * digit (suc k) page))) page)
    → look (suc k) memory' s page ≡ look (suc k) memory s page
look-agree k memory memory' s page same below =
    elim (even_or_odd (load64 memory (s + 8 * digit (suc k) page))) [
      | inl off ↦
          look-missing (suc k) memory' s page (ap (λ x. x % 2) same ∙ off)
          ∙ sym (look-missing (suc k) memory s page off)
      | inr on ↦
          look-step k memory' s page (ap (λ x. x % 2) same ∙ on)
          ∙ ap (λ x. look k memory' (child x) page) same
          ∙ below on
          ∙ sym (look-step k memory s page on)
    ]
