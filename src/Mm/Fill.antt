-- ===== src/Mm/Fill.antt =====
-- The loop of buddy_init gives every node of the bitmap the size of its block.
use simple_rv64os.Base.{
  ℕ, zero, suc, ◌+◌, ◌*◌, ◌/◌, ◌^◌, ◌≤◌, ◌<◌, ◌≡◌, ◌≢◌, refl, sym, ◌∙◌, ap, subst, true, false, inl,
  inr, arith, leb, ◌==◌, two-pow-suc, two-pow-pos, pow-le, Bool-cases, leb→le, ==→eq,
}
use simple_rv64os.Base.Word.{add64}
use simple_rv64os.Buddy.{Bitmap, upd, is_power_of_2}
use simple_rv64os.Buddy.Round.{is_power_of_2_pow, pow_of_is_power_of_2}
use simple_rv64os.Mm.{fill}

-- Node `i` stands on the level of `2 ^ l` nodes.
abbrev pub OnLevel : ℕ → ℕ → Type 0
OnLevel l i = (2 ^ l ≤ i + 1) × (i + 1 < 2 * 2 ^ l)

pow_next : (l e : ℕ) → 2 ^ l < 2 ^ e → 2 ^ e ≤ 2 * 2 ^ l → 2 ^ e ≡ 2 * 2 ^ l
pow_next l e lo hi = elim (Bool-cases (leb (suc l) e)) [
  | inl t ↦ omega (arith, pow-le (suc l) e (leb→le _ _ t), two-pow-suc l)
  | inr t ↦ absurd (omega (arith, pow-le e l (ground arith)))
]

-- A node stands on one level.
level_unique : (l k i : ℕ) → OnLevel l i → OnLevel k i → 2 ^ l ≡ 2 ^ k
level_unique l k i a b = elim (Bool-cases (leb l k)) [
  | inl t ↦ elim (Bool-cases (leb k l)) [
    | inl u ↦ let e : l ≡ k = omega (arith, leb→le l k t, leb→le k l u) in ap (λ x. 2 ^ x) e
    | inr u ↦ absurd (omega (arith, pow-le (suc l) k (ground arith), two-pow-suc l))
  ]
  | inr t ↦ absurd (omega (arith, pow-le (suc k) l (ground arith), two-pow-suc k))
]

cancel : (a x y : ℕ) → 1 ≤ a → a * x ≡ a * y → x ≡ y
cancel a x y pos e = grind arith

pub fill-below :
    (rounds i s : ℕ) (m : Bitmap) (j : ℕ) → i + rounds ≤ 2 ^ 60 → j < i → fill rounds i s m j ≡ m j
unfolding fill
fill-below zero i s m j bound lt = refl
fill-below (suc rounds) i s m j bound lt =
    let next : add64 i 1 ≡ i + 1 = omega arith in
    rw next (fill-below rounds (i + 1) _ _ j (omega arith) (omega arith) ∙ ground arith)

-- One round, once the level of node `i` and the size there are known.
fill_round :
    (rounds i t l d : ℕ) (m : Bitmap) (j k c : ℕ)
    → i + suc rounds ≤ 2 ^ 60
    → OnLevel l i
    → 2 ^ l * 2 ^ d ≡ t
    → OnLevel k j
    → 2 ^ k * 2 ^ c ≡ t
    → i ≤ j
    → (i < j → fill rounds (i + 1) (2 ^ d) (upd m i (2 ^ d)) j ≡ 2 ^ c)
    → fill rounds (i + 1) (2 ^ d) (upd m i (2 ^ d)) j ≡ 2 ^ c
fill_round rounds i t l d m j k c bound here e at f le later = elim (Bool-cases (i == j)) [
  | inl same ↦
      let eq : i ≡ j = ==→eq i j same in
      let level = level_unique l k i here (subst (OnLevel k) (sym eq) at) in
      let size : 2 ^ d ≡ 2 ^ c =
        cancel (2 ^ l) (2 ^ d) (2 ^ c) (two-pow-pos l)
          (e ∙ sym f ∙ ap (λ x. x * 2 ^ c) (sym level)) in
      fill-below rounds (i + 1) (2 ^ d) (upd m i (2 ^ d)) j (omega arith) (omega arith)
      ∙ rw same size
  | inr other ↦ later (ground arith)
]

-- One round, where a level begins and where it goes on.
pub fill_begin :
    (rounds i s : ℕ) (m : Bitmap)
    → i < 2 ^ 60
    → is_power_of_2 (i + 1) ≡ true
    → fill (suc rounds) i s m ≡ fill rounds (i + 1) (s / 2) (upd m i (s / 2))
unfolding fill
fill_begin rounds i s m bound t = let next : add64 i 1 ≡ i + 1 = omega arith in rw (next, t) refl

fill_on :
    (rounds i s : ℕ) (m : Bitmap)
    → i < 2 ^ 60
    → is_power_of_2 (i + 1) ≡ false
    → fill (suc rounds) i s m ≡ fill rounds (i + 1) s (upd m i s)
unfolding fill
fill_on rounds i s m bound t = let next : add64 i 1 ≡ i + 1 = omega arith in rw (next, t) refl

-- The next level has twice the nodes, of half the size.
next_level :
    (l d t : ℕ)
    → 2 ^ l * 2 ^ d ≡ t
    → 2 ^ l < t
    → (d' : ℕ) × (2 ^ d / 2 ≡ 2 ^ d') × (2 ^ suc l * 2 ^ d' ≡ t)
next_level l zero t e lt = absurd (omega arith)
next_level l (suc d) t e lt =
    let g : 2 ^ l * (2 * 2 ^ d) ≡ t = subst (λ x. 2 ^ l * x ≡ t) (two-pow-suc d) e in
    (d, omega (arith, two-pow-suc d), rw (two-pow-suc l) (omega arith))

-- A node beyond `i` is given the size of its level.
pub fill-level :
    (rounds i t l d : ℕ) (m : Bitmap) (j k c : ℕ)
    → i + rounds ≤ 2 ^ 60
    → i + rounds < 2 * t
    → (2 ^ l ≤ i) × (i < 2 * 2 ^ l)
    → 2 ^ l * 2 ^ d ≡ t
    → OnLevel k j
    → 2 ^ k * 2 ^ c ≡ t
    → i ≤ j
    → j < i + rounds
    → fill rounds i (2 ^ d) m j ≡ 2 ^ c
fill-level zero i t l d m j k c bound room prev e at f le lt = absurd (omega arith)
fill-level (suc rounds) i t l d m j k c bound room prev e at f le lt =
    elim (Bool-cases (is_power_of_2 (i + 1))) [
      | inl begins ↦
          let (p, pe) = pow_of_is_power_of_2 (i + 1) (omega arith) (omega arith) begins in
          let full : i + 1 ≡ 2 * 2 ^ l =
            pe ∙ pow_next l p (omega (arith, pe)) (omega (arith, pe)) in
          let (d', half, e') = next_level l d t e (omega arith) in
          let double = two-pow-suc l in
          let here : OnLevel (suc l) i = (omega arith, omega arith) in
          let rest = fill_round rounds i t (suc l) d' m j k c bound here e' at f le (λ more.
            fill-level rounds (i + 1) t (suc l) d' (upd m i (2 ^ d')) j k c (omega arith)
              (omega arith) (omega arith, omega arith) e' at f (omega arith) (omega arith)) in
          ap (λ g. g j) (fill_begin rounds i (2 ^ d) m (omega arith) begins)
          ∙ ap (λ x. fill rounds (i + 1) x (upd m i x) j) half
          ∙ rest
      | inr on ↦
          let more : i + 1 ≢ 2 * 2 ^ l = λ eq. cc (
            sym on
            ∙ ap is_power_of_2 (eq ∙ sym (two-pow-suc l))
            ∙ is_power_of_2_pow (suc l) (omega (arith, two-pow-suc l))) in
          let here : OnLevel l i = (omega arith, omega arith) in
          let rest = fill_round rounds i t l d m j k c bound here e at f le (λ later.
            fill-level rounds (i + 1) t l d (upd m i (2 ^ d)) j k c (omega arith) (omega arith)
              (omega arith, omega arith) e at f (omega arith) (omega arith)) in
          ap (λ g. g j) (fill_on rounds i (2 ^ d) m (omega arith) on) ∙ rest
    ]
