-- ===== src/Paging/Space/Fresh.antt =====
-- A root without entries, in a page in use, where free pages are clear.
use simple_rv64os.Base.{
  ℕ, ◌+◌, ◌*◌, ◌%◌, ◌^◌, ◌<◌, ◌≤◌, ◌≡◌, ◌≢◌, sym, ◌∙◌, ap, subst, inl, inr, false, true, none, some,
  List, [], arith,
}
use simple_rv64os.Base.Arrays.{put, put-same, put-other}
use simple_rv64os.Buddy.{Buddy}
use simple_rv64os.Buddy.Take.{IsBuddy, is_free}
use simple_rv64os.Bytes.{Bytes}
use simple_rv64os.Bytes.Words.{load64-zero}
use simple_rv64os.Paging.Walk.{IsTable}
use simple_rv64os.Paging.Space.{digit, fields, view, Owner, IsSpace}
use simple_rv64os.Paging.Space.Look.{look-missing}
use simple_rv64os.Paging.Space.Page.{page_at}
use simple_rv64os.Paging.Space.Apart.{page_at-IsTable, page_at-injective}
use simple_rv64os.Paging.Space.Link.{eq_or_ne}

unfoldable pub root_only : ℕ → Owner
root_only root = put (λ t. none) root (some [])

only-root : (root t : ℕ) (path : List ℕ) → root_only root t ≡ some path → (t ≡ root) × (path ≡ [])
unfolding root_only
only-root root t path mine = elim (eq_or_ne t root) [
  | inl e ↦ (
    e,
    cc (
        sym (subst (λ x. root_only root x ≡ some path) e mine)
        ∙ put-same (λ t'. none) root (some [])),
  )
  | inr ne ↦
      let nothing : root_only root t ≡ none =
        put-other (λ t'. none) root (some []) t (λ e. ne (sym e)) in
      absurd (cc (sym nothing ∙ mine))
]

pub root_only-other : (s p : ℕ) → p ≢ s → root_only (page_at s) (page_at p) ≡ none
unfolding root_only
root_only-other s p ne =
    put-other (λ t. none) (page_at s) (some []) (page_at p)
      (λ e. ne (page_at-injective p s (sym e)))

-- Page s is the root.
pub fresh-IsSpace :
    (d s : ℕ) (b : Buddy) (memory : Bytes)
    → IsBuddy d b
    → s < 2 ^ 25
    → is_free d b 0 ≡ false
    → is_free d b s ≡ false
    → ((a : ℕ) → page_at s ≤ a → a < page_at s + 4096 → memory a ≡ 0)
    → ((p a : ℕ)
        → p < 2 ^ d
        → is_free d b p ≡ true
        → page_at p ≤ a
        → a < page_at p + 4096
        → memory a ≡ 0)
    → IsSpace d (record { memory = memory; buddy = b }) (page_at s) (root_only (page_at s))
fresh-IsSpace d s b memory valid low zero_used root_used empty clear = record {
  buddy = valid;
  zero_used = zero_used;
  at_root = unfold root_only in put-same (λ t. none) (page_at s) (some []);
  is_table = λ t path mine.
      subst IsTable (sym (only-root (page_at s) t path mine).0) (page_at-IsTable s low);
  in_use = λ t path p mine within free e.
      let same : p ≡ s = page_at-injective p s (sym e ∙ (only-root (page_at s) t path mine).0) in
      cc (sym root_used ∙ subst (λ x. is_free d b x ≡ true) same free);
  down = λ t path i mine short lt on.
      let at = (only-root (page_at s) t path mine).0 in
      let zero_entry =
        load64-zero memory (t + 8 * i) (λ a lo hi. empty a (omega arith) (omega arith)) in
      absurd (omega arith);
  clean = clear;
}

-- Nothing is mapped in it.
pub fresh-view :
    (memory : Bytes) (root page : ℕ)
    → ((a : ℕ) → root ≤ a → a < root + 4096 → memory a ≡ 0)
    → view memory root page ≡ none
fresh-view memory root page empty =
    let zero_entry =
      load64-zero memory (root + 8 * digit 2 page)
        (λ a lo hi. empty a (omega arith) (omega arith)) in
    ap fields (look-missing 2 memory root page (ap (λ x. x % 2) zero_entry))
