-- ===== src/Buddy/Local.antt =====
-- What holds below a node of the bitmap depends on the entries below it alone.
use simple_rv64os.Base.{
  ℕ, zero, suc, ◌-◌, ◌^◌, ◌≡◌, sym, ◌∙◌, ◌≢◌, ◌⊎◌, inl, inr, true, false, arith, two-pow-pos,
}
use simple_rv64os.Buddy.{Bitmap, upd}
use simple_rv64os.Buddy.Tree.{
  left, right, Under, here, Under-le, Under-self, Under-of_left, Under-of_right, Under-disjoint,
  IsFull, IsTree, page_free,
}

-- `m'` has the entries of `m` below node `i`.
abbrev pub Same : Bitmap → Bitmap → ℕ → Type 0
Same m m' i = (j : ℕ) → Under i j → m' j ≡ m j

-- `m'` differs from `m` only below node `i`.
abbrev pub Frame : Bitmap → Bitmap → ℕ → Type 0
Frame m m' i = (j : ℕ) → (Under i j → ⊥) → m' j ≡ m j

pub IsFull-Same : (m m' : Bitmap) (d i : ℕ) → Same m m' i → IsFull m d i → IsFull m' d i
IsFull-Same m m' zero i s h = s i (Under-self i) ∙ h
IsFull-Same m m' (suc d) i s h = (
  s i (Under-self i) ∙ h.0,
  IsFull-Same m m' d (left i) (λ j u. s j (Under-of_left i j u)) h.1,
  IsFull-Same m m' d (right i) (λ j u. s j (Under-of_right i j u)) h.2,
)

pub IsTree-Same : (m m' : Bitmap) (d i : ℕ) → Same m m' i → IsTree m d i → IsTree m' d i
IsTree-Same m m' zero i s h = rw (s i (Under-self i)) h
IsTree-Same m m' (suc d) i s h =
    let l = s (left i) (Under-of_left i (left i) (Under-self (left i))) in
    let r = s (right i) (Under-of_right i (right i) (Under-self (right i))) in
    let top = s i (Under-self i) in
    let sl : Same m m' (left i) = λ j u. s j (Under-of_left i j u) in
    let sr : Same m m' (right i) = λ j u. s j (Under-of_right i j u) in
    (
      IsTree-Same m m' d (left i) sl h.0,
      IsTree-Same m m' d (right i) sr h.1,
      elim h.2 [
        | inl e ↦ inl (rw (top, l, r) e)
        | inr used ↦ inr (
          top ∙ used.0,
          IsFull-Same m m' d (left i) sl used.1,
          IsFull-Same m m' d (right i) sr used.2,
        )
      ],
    )

pub page_free-Same :
    (m m' : Bitmap) (d i p : ℕ) → Same m m' i → page_free m' d i p ≡ page_free m d i p
page_free-Same m m' zero i p s = rw (s i (Under-self i))
page_free-Same m m' (suc d) i p s = rw (
  s i (Under-self i),
  page_free-Same m m' d (left i) p (λ j u. s j (Under-of_left i j u)),
  page_free-Same m m' d (right i) (p - 2 ^ d) (λ j u. s j (Under-of_right i j u)),
)

-- A change below one child is not seen below the other, and not at the node.
pub Frame-Same-right : (m m' : Bitmap) (i : ℕ) → Frame m m' (left i) → Same m m' (right i)
Frame-Same-right m m' i f j u = f j (λ v. Under-disjoint i j v u)

pub Frame-Same-left : (m m' : Bitmap) (i : ℕ) → Frame m m' (right i) → Same m m' (left i)
Frame-Same-left m m' i f j u = f j (λ v. Under-disjoint i j u v)

pub upd-Same-left : (m : Bitmap) (i v : ℕ) → Same m (upd m i v) (left i)
upd-Same-left m i v j u = ground (arith, Under-le (left i) j u)

pub upd-Same-right : (m : Bitmap) (i v : ℕ) → Same m (upd m i v) (right i)
upd-Same-right m i v j u = ground (arith, Under-le (right i) j u)

pub upd-Frame : (m : Bitmap) (i v : ℕ) → Frame m (upd m i v) i
upd-Frame m i v j n = elim (Bool-cases-eq i j) [
  | inl e ↦ absurd (n (here (sym e)))
  | inr ne ↦ ground arith
]
  where
    Bool-cases-eq : (a b : ℕ) → (a ≡ b) ⊎ (a ≢ b)
    Bool-cases-eq a b = ground arith

pub page_free-zero : (m : Bitmap) (d i p : ℕ) → m i ≡ 0 → page_free m d i p ≡ false
page_free-zero m zero i p e = rw e
page_free-zero m (suc d) i p e = rw e

-- Every page of a block above free nodes is free.
pub page_free-IsFull : (m : Bitmap) (d i p : ℕ) → IsFull m d i → page_free m d i p ≡ true
page_free-IsFull m zero i p h = rw h
page_free-IsFull m (suc d) i p h = ground (
  arith,
  two-pow-pos (suc d),
  page_free-IsFull m d (left i) p h.1,
  page_free-IsFull m d (right i) (p - 2 ^ d) h.2,
)
