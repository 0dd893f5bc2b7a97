-- ===== src/Buddy/RoundTrip.antt =====
-- `buddy_free` undoes `buddy_alloc`.
use simple_rv64os.Base.{
  ℕ, zero, suc, ◌+◌, ◌-◌, ◌^◌, ◌≤◌, ◌<◌, ◌≡◌, refl, sym, ◌∙◌, ap, subst, fun_ext, inl, inr, Bool,
  true, false, not, ◌&&◌, arith, ltb, leb, ◌==◌, two-pow-suc, two-pow-pos, some, Bool-cases, ge→ltb,
  lt→ltb, ne→==,
}
use simple_rv64os.Buddy.{Bitmap, Buddy, upd, round_request, buddy_alloc, buddy_free}
use simple_rv64os.Buddy.Tree.{
  left, right, Under-le, IsTree, page_free, combine, IsTree-le, IsTree-IsFull,
}
use simple_rv64os.Buddy.Local.{
  Same, IsFull-Same, page_free-Same, upd-Same-left, upd-Same-right, page_free-IsFull,
}
use simple_rv64os.Buddy.Claim.{above, above-le, above-sub, claim, claim-left, claim-right}
use simple_rv64os.Buddy.Alloc.{offset, in_block, offset-le, right_holds, claim-Taken}
use simple_rv64os.Buddy.Pages.{claim-pages, offset-left, offset-right}
use simple_rv64os.Buddy.Release.{side, rest, release, release-whole, release-part, rejoin}
use simple_rv64os.Buddy.Take.{IsBuddy, run, pow_exponent-le}
use simple_rv64os.Buddy.Free.{buddy_free_run}

upd-upd : (m : Bitmap) (i v w : ℕ) → upd (upd m i v) i w ≡ upd m i w
upd-upd m i v w = fun_ext λ j. ground arith

upd_self : (m : Bitmap) (i v : ℕ) → m i ≡ v → upd m i v ≡ m
upd_self m i v e = fun_ext λ j. elim (Bool-cases (i == j)) [
  | inl t ↦ let same : i ≡ j = ground arith in rw t (sym e ∙ ap m same)
  | inr t ↦ rw t
]

upd_comm : (m : Bitmap) (i j v w : ℕ) → i < j → upd (upd m i v) j w ≡ upd (upd m j w) i v
upd_comm m i j v w lt = fun_ext λ k. ground arith

above-Same : (m : Bitmap) (i v c : ℕ) → i < c → Same m (upd m i v) c
above-Same m i v c lt j u = ground (arith, Under-le c j u)

rejoin-upd : (r : Bitmap) (i v d c : ℕ) → i < c → rejoin (upd r i v) d c ≡ upd (rejoin r d c) i v
rejoin-upd r i v d c lt =
    rw (ne→== i (left c) (omega arith), ne→== i (right c) (omega arith))
      (upd_comm r i c v (combine (2 ^ suc d) (r (left c)) (r (right c))) lt)

-- Giving back below `c` neither reads nor writes a node above `c`.
release-upd :
    (m : Bitmap) (i v d c p : ℕ) → i < c → release (upd m i v) d c p ≡ upd (release m d c p) i v
release-upd m i v zero c p lt = unfold release in upd_comm m i c v 1 lt
release-upd m i v (suc d) c p lt =
    let below : i < side d c p = ground arith in
    let same =
      page_free-Same m (upd m i v) d (side d c p) (rest d p)
        (above-Same m i v (side d c p) below) in
    elim (Bool-cases (page_free m d (side d c p) (rest d p))) [
      | inl t ↦
          release-whole (upd m i v) d c p (same ∙ t)
          ∙ upd_comm m i c v (2 ^ suc d) lt
          ∙ ap (λ x. upd x i v) (sym (release-whole m d c p t))
      | inr t ↦
          let r = release m d (side d c p) (rest d p) in
          let ih = release-upd m i v d (side d c p) (rest d p) below in
          let kept : rejoin (upd r i v) d c ≡ upd (rejoin r d c) i v = rejoin-upd r i v d c lt in
          release-part (upd m i v) d c p (same ∙ t)
          ∙ ap (λ x. rejoin x d c) ih
          ∙ kept
          ∙ ap (λ x. upd x i v) (sym (release-part m d c p t))
    ]

-- A node above a block that was free is the sum of its children again.
rejoin_self : (m : Bitmap) (d i v : ℕ) → IsTree m (suc d) i → 1 ≤ m i → rejoin (upd m i v) d i ≡ m
rejoin_self m d i v h pos =
    let w = combine (2 ^ suc d) (m (left i)) (m (right i)) in
    let e : m i ≡ w = ground arith in
    rw (ne→== i (left i) (omega arith), ne→== i (right i) (omega arith))
      (upd-upd m i v w ∙ upd_self m i w e)

release_taken :
    (m : Bitmap) (e i p : ℕ) → IsTree m e i → m i ≡ 2 ^ e → release (upd m i 0) e i p ≡ m
release_taken m zero i p h full = unfold release in upd-upd m i 0 1 ∙ upd_self m i 1 full
release_taken m (suc e) i p h full =
    let f = IsTree-IsFull m (suc e) i h full in
    let fl = IsFull-Same m (upd m i 0) e (left i) (upd-Same-left m i 0) f.1 in
    let fr = IsFull-Same m (upd m i 0) e (right i) (upd-Same-right m i 0) f.2 in
    let free : page_free (upd m i 0) e (side e i p) (rest e p) ≡ true =
      elim (Bool-cases (ltb p (2 ^ e))) [
        | inl t ↦ rw t (page_free-IsFull (upd m i 0) e (left i) p fl)
        | inr t ↦ rw t (page_free-IsFull (upd m i 0) e (right i) (p - 2 ^ e) fr)
      ] in
    release-whole (upd m i 0) e i p free ∙ upd-upd m i 0 (2 ^ suc e) ∙ upd_self m i (2 ^ suc e) full

taken_used :
    (m : Bitmap) (e k i p : ℕ)
    → IsTree m (above k e) i
    → 2 ^ e ≤ m i
    → p < 2 ^ above k e
    → in_block (offset m e k i) (2 ^ e) p ≡ true
    → page_free (claim m (2 ^ e) k i) (above k e) i p ≡ false
taken_used m e k i p h holds lt inside =
    (claim-pages m e k i p h holds lt).0
    ∙ ap (λ b. page_free m (above k e) i p && not b) inside
    ∙ and_false (page_free m (above k e) i p)
  where
    and_false : (b : Bool) → (b && false) ≡ false
    and_false true = refl
    and_false false = refl

-- One level up: if giving back below a child restores `m` then so does giving back at the node.
undo :
    (m m' : Bitmap) (d i p v : ℕ)
    → IsTree m (suc d) i
    → 1 ≤ m i
    → page_free m' d (side d i p) (rest d p) ≡ false
    → release m' d (side d i p) (rest d p) ≡ m
    → release (upd m' i v) (suc d) i p ≡ m
undo m m' d i p v h pos used back =
    let below : i < side d i p = ground arith in
    let same =
      page_free-Same m' (upd m' i v) d (side d i p) (rest d p)
        (above-Same m' i v (side d i p) below) in
    release-part (upd m' i v) d i p (same ∙ used)
    ∙ ap (λ x. rejoin x d i) (release-upd m' i v d (side d i p) (rest d p) below)
    ∙ ap (λ x. rejoin (upd x i v) d i) back
    ∙ rejoin_self m d i v h pos

-- Giving back any page of the block just taken restores the bitmap.
release-claim :
    (m : Bitmap) (e k i p : ℕ)
    → IsTree m (above k e) i
    → 2 ^ e ≤ m i
    → p < 2 ^ above k e
    → in_block (offset m e k i) (2 ^ e) p ≡ true
    → release (claim m (2 ^ e) k i) (above k e) i p ≡ m
release-claim m e zero i p h holds lt inside =
    unfold claim in release_taken m e i p h (omega (arith, IsTree-le m e i h))
release-claim m e (suc k) i p h holds lt inside =
    let d = above k e in
    let n = 2 ^ e in
    let pos : 1 ≤ m i = omega (arith, two-pow-pos e) in
    elim (Bool-cases (leb n (m (left i)))) [
      | inl t ↦
          let ins : in_block (offset m e k (left i)) n p ≡ true =
            subst (λ o. in_block o n p ≡ true) (offset-left m e k i t) inside in
          let small : p < 2 ^ d = ground (arith, offset-le m e k (left i)) in
          let goes : ltb p (2 ^ d) ≡ true = lt→ltb p (2 ^ d) small in
          subst (λ x. release x (suc d) i p ≡ m) (sym (claim-left m n k i t))
            (undo m (claim m n k (left i)) d i p _ h pos
              (rw goes (taken_used m e k (left i) p h.0 (ground arith) small ins))
              (rw goes (release-claim m e k (left i) p h.0 (ground arith) small ins)))
      | inr t ↦
          let ins : in_block (offset m e k (right i) + 2 ^ d) n p ≡ true =
            subst (λ o. in_block o n p ≡ true) (offset-right m e k i t) inside in
          let room = right_holds m d n i h (two-pow-pos e) (above-le k e) holds t in
          let big : 2 ^ d ≤ p = ground arith in
          let goes : ltb p (2 ^ d) ≡ false = ge→ltb p (2 ^ d) big in
          let small : p - 2 ^ d < 2 ^ d = omega (arith, two-pow-suc d) in
          let ins' : in_block (offset m e k (right i)) n (p - 2 ^ d) ≡ true = ground arith in
          subst (λ x. release x (suc d) i p ≡ m) (sym (claim-right m n k i t))
            (undo m (claim m n k (right i)) d i p _ h pos
              (rw goes (taken_used m e k (right i) (p - 2 ^ d) h.1 room small ins'))
              (rw goes (release-claim m e k (right i) (p - 2 ^ d) h.1 room small ins')))
    ]

undo_run :
    (b : Buddy) (n e k pfn p : ℕ) (b' : Buddy)
    → IsBuddy (above k e) b
    → round_request n ≡ 2 ^ e
    → 2 ^ e ≤ b.bitmap 0
    → buddy_alloc b n ≡ some (pfn, b')
    → in_block pfn (2 ^ e) p ≡ true
    → buddy_free b' p ≡ b
undo_run b n e k pfn p b' valid rounds holds runs inside =
    let m = b.bitmap in
    let o = offset m e k 0 in
    let b₁ : Buddy = record b { bitmap = claim m (2 ^ e) k 0 } in
    let same : ◌≡◌ {A = ℕ × Buddy} (o, b₁) (pfn, b') =
      cc (sym (run b n e k valid rounds holds) ∙ runs) in
    let at : o ≡ pfn = ap (λ (x : ℕ × Buddy). x.0) same in
    let ins : in_block o (2 ^ e) p ≡ true =
      subst (λ x. in_block x (2 ^ e) p ≡ true) (sym at) inside in
    let small : p < 2 ^ above k e = ground (arith, offset-le m e k 0) in
    let valid₁ : IsBuddy (above k e) b₁ = record {
      pages = valid.pages;
      fits = valid.fits;
      tree = (claim-Taken m e k 0 valid.tree holds).0;
    } in
    subst (λ (x : Buddy). buddy_free x p ≡ b) (ap (λ (x : ℕ × Buddy). x.1) same)
      (buddy_free_run (above k e) b₁ p valid₁ small
          (taken_used m e k 0 p valid.tree holds small ins)
        ∙ ap (λ x. record b { bitmap = x }) (release-claim m e k 0 p valid.tree holds small ins))

-- Freeing any page of a block that `buddy_alloc` has just returned restores the allocator.
pub buddy_free-buddy_alloc :
    (d e : ℕ) (b : Buddy) (n pfn p : ℕ) (b' : Buddy)
    → IsBuddy d b
    → round_request n ≡ 2 ^ e
    → 2 ^ e ≤ b.bitmap 0
    → buddy_alloc b n ≡ some (pfn, b')
    → in_block pfn (2 ^ e) p ≡ true
    → buddy_free b' p ≡ b
buddy_free-buddy_alloc d e b n pfn p b' valid rounds holds =
    let small = pow_exponent-le e d (omega (arith, IsTree-le b.bitmap d 0 valid.tree)) in
    undo_run b n e (d - e) pfn p b' (subst (λ x. IsBuddy x b) (sym (above-sub d e small)) valid)
      rounds holds
