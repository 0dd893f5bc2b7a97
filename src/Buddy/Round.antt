-- ===== src/Buddy/Round.antt =====
-- IS_POWER_OF_2 and fixsize: every request is rounded to the least power of two that holds it.
use simple_rv64os.Base.{
  ℕ, zero, suc, ◌+◌, ◌-◌, ◌*◌, ◌/◌, ◌%◌, ◌^◌, ◌≤◌, ◌<◌, ◌≡◌, refl, sym, ◌∙◌, ap, subst, ◌⊎◌, inl,
  inr, true, bit_and, bit_or, arith, ltb, leb, ◌==◌, two-pow-suc, two-pow-pos, pow_add, pow-le,
  Bool-cases, eq→==, ==→eq, leb→le, ltb→lt,
}
use simple_rv64os.Base.Word.{sub64}
use simple_rv64os.Base.Bits.{and_digit, or_digit, zero-and, and_fields, or_fields, and-zero}
use simple_rv64os.Base.Masks.{and_self, ones-or, or_ones, or_low, fields}
use simple_rv64os.Buddy.{is_power_of_2, smear, fixsize, round_request}

-- If x and x - 1 share no bit then x is a power of two.
and_pred : (k x : ℕ) → x ≤ k → 1 ≤ x → bit_and x (x - 1) ≡ 0 → (e : ℕ) × (x ≡ 2 ^ e)
and_pred zero x h pos z = absurd (omega arith)
and_pred (suc k) x h pos z = elim (Bool-cases (x % 2 == 0)) [
  | inl even ↦
      let ev : x % 2 ≡ 0 = ground arith in
      let half : (x - 1) / 2 ≡ x / 2 - 1 = omega arith in
      let digit = and_digit x (x - 1) in
      let below : bit_and (x / 2) (x / 2 - 1) ≡ 0 = rw half at (zero_double _ _ (sym digit ∙ z)) in
      let (e, p) = and_pred k (x / 2) (omega arith) (omega arith) below in
      (suc e, omega (arith, p, two-pow-suc e))
  | inr odd ↦
      let od : x % 2 ≡ 1 = ground arith in
      let half : (x - 1) / 2 ≡ x / 2 = omega arith in
      let digit = and_digit x (x - 1) in
      let below : bit_and (x / 2) (x / 2) ≡ 0 = rw half at (zero_double _ _ (sym digit ∙ z)) in
      (0, omega (arith, and_self (x / 2) (x / 2) (omega arith)))
]
  where
    zero_double : (a b : ℕ) → 2 * a + b ≡ 0 → a ≡ 0
    zero_double a b e = omega arith

pow_and_pred : (e : ℕ) → bit_and (2 ^ e) (2 ^ e - 1) ≡ 0
pow_and_pred e =
    let pos = two-pow-pos e in
    let one : 2 ^ e ≡ 1 * 2 ^ e + 0 = omega arith in
    let mask : 2 ^ e - 1 ≡ 0 * 2 ^ e + (2 ^ e - 1) = omega arith in
    ap (λ t. bit_and t (2 ^ e - 1)) one
    ∙ ap (λ t. bit_and (1 * 2 ^ e + 0) t) mask
    ∙ and_fields e 1 0 0 (2 ^ e - 1) pos (omega arith)
    ∙ omega (arith, and-zero 1, zero-and (2 ^ e - 1))

-- IS_POWER_OF_2 holds of a positive word exactly when it is a power of two.
pub is_power_of_2_pow : (e : ℕ) → 2 ^ e < 2 ^ 64 → is_power_of_2 (2 ^ e) ≡ true
unfolding is_power_of_2
is_power_of_2_pow e h =
    let pred : sub64 (2 ^ e) 1 ≡ 2 ^ e - 1 = omega (arith, two-pow-pos e) in
    rw pred (eq→== _ 0 (pow_and_pred e))

pub pow_of_is_power_of_2 :
    (x : ℕ) → 1 ≤ x → x < 2 ^ 64 → is_power_of_2 x ≡ true → (e : ℕ) × (x ≡ 2 ^ e)
unfolding is_power_of_2
pow_of_is_power_of_2 x pos h t =
    let pred : sub64 x 1 ≡ x - 1 = omega arith in
    and_pred x x (omega arith) pos (subst (λ y. bit_and x y ≡ 0) pred (==→eq _ 0 t))

-- The leading bits of `x`, below the power of two `t`, are ones: `w` of them, or all.
record Ones (w t x : ℕ) : Type 0 where
  low : ℕ
  high : ℕ
  top : 2 ^ high * 2 ^ low ≡ t
  leading : x / 2 ^ low ≡ 2 ^ high - 1
  reach : (low ≡ 0) ⊎ (high ≡ w)

div_unique : (x n q r : ℕ) → x ≡ q * n + r → r < n → x / n ≡ q
div_unique x n q r e lt = grind arith

or-lt : (k x y : ℕ) → x < 2 ^ k → y < 2 ^ k → bit_or x y < 2 ^ k
or-lt zero x y hx hy =
    let ex : x ≡ 0 = omega arith in let ey : y ≡ 0 = omega arith in rw (ex, ey) (omega arith)
or-lt (suc k) x y hx hy =
    let double = two-pow-suc k in
    omega (arith, or_digit x y, or-lt k (x / 2) (y / 2) (omega arith) (omega arith))

div-lt : (x n q : ℕ) → 1 ≤ n → x < q * n → x / n < q
div-lt x n q pos h = grind arith

div-add : (q n r : ℕ) → 1 ≤ n → (q * n + r) / n ≡ q + r / n
div-add q n r pos = div_unique (q * n + r) n (q + r / n) (r % n) (grind arith) (grind arith)

-- All ones stay all ones.
smear_ones : (w h x : ℕ) → x ≡ 2 ^ h - 1 → smear w x ≡ x
unfolding smear
smear_ones w h x e =
    let small : x / 2 ^ w < 2 ^ h = grind (arith, two-pow-pos h, two-pow-pos w) in
    ap (λ t. bit_or t (x / 2 ^ w)) e ∙ ones-or h (x / 2 ^ w) small ∙ sym e

regroup :
    (m p l r : ℕ)
    → (m * (l * p) + r ≡ m * l * p + r)
      × (m * (l * p) + (r / l * l + r % l) ≡ (m * p + r / l) * l + r % l)
regroup m p l r = (omega arith, omega arith)

-- The leading `w` ones, shifted by `w`, fill the next `w` places; `r` is what was there.
smear_fill :
    (w l x r : ℕ)
    → x ≡ (2 ^ w - 1) * (2 ^ l * 2 ^ w) + r
    → r < 2 ^ l * 2 ^ w
    → smear w x / 2 ^ l ≡ 2 ^ w * 2 ^ w - 1
unfolding smear
smear_fill w l x r e lt =
    let p = 2 ^ w in
    let m = 2 ^ w - 1 in
    let pos = two-pow-pos w in
    let a = m * p + r / 2 ^ l in
    let (re, rlt) = fields l r in
    let (to_shift, _) = regroup m p (2 ^ l) r in
    let (_, to_fields) = regroup m p (2 ^ l) r in
    let split : x ≡ a * 2 ^ l + r % 2 ^ l = e ∙ ap (λ t. m * (2 ^ l * p) + t) re ∙ to_fields in
    let shifted : x / p ≡ m * 2 ^ l + r / p =
      ap (λ t. t / p) (e ∙ to_shift) ∙ div-add (m * 2 ^ l) p r pos in
    let shifted_low : r / p < 2 ^ l = div-lt r p (2 ^ l) pos lt in
    let ored : bit_or x (x / p) ≡ bit_or a m * 2 ^ l + bit_or (r % 2 ^ l) (r / p) =
      ap (λ t. bit_or t (x / p)) split
      ∙ ap (λ t. bit_or (a * 2 ^ l + r % 2 ^ l) t) shifted
      ∙ or_fields l a (r % 2 ^ l) m (r / p) rlt shifted_low in
    let place : r / 2 ^ l < p = div-lt r (2 ^ l) p (two-pow-pos l) (omega arith) in
    let filled : bit_or a m ≡ p * p - 1 =
      or_low w a m (omega arith)
      ∙ ap (λ t. t * p + bit_or (a % p) m) (div_unique a p m (r / 2 ^ l) refl place)
      ∙ ap (λ t. m * p + t) (or_ones w (a % p) (omega arith))
      ∙ square m p (omega arith) in
    ap (λ t. t / 2 ^ l) ored
    ∙ div_unique _ (2 ^ l) (bit_or a m) (bit_or (r % 2 ^ l) (r / p)) refl
        (or-lt l (r % 2 ^ l) (r / p) rlt shifted_low)
    ∙ filled
  where
    square : (m p : ℕ) → p ≡ m + 1 → m * p + m ≡ p * p - 1
    square m p h = rw h (omega arith)

-- Fewer than `w` places are left: they are filled.
smear_end :
    (w l x r : ℕ) → l ≤ w → x ≡ (2 ^ w - 1) * 2 ^ l + r → r < 2 ^ l → smear w x ≡ 2 ^ w * 2 ^ l - 1
unfolding smear
smear_end w l x r le e lt =
    let m = 2 ^ w - 1 in
    let less = pow-le l w le in
    let shifted : x / 2 ^ w ≡ 2 ^ l - 1 =
      div_unique x (2 ^ w) (2 ^ l - 1) (2 ^ w - 2 ^ l + r)
        (e ∙ exchange (2 ^ l - 1) (2 ^ w - 2 ^ l) (2 ^ l) (2 ^ w) r (omega arith) (omega arith))
        (omega arith) in
    ap (λ t. bit_or x t) shifted
    ∙ or_low l x (2 ^ l - 1) (omega arith)
    ∙ ap (λ t. t * 2 ^ l + bit_or (x % 2 ^ l) (2 ^ l - 1)) (div_unique x (2 ^ l) m r e lt)
    ∙ ap (λ t. m * 2 ^ l + t) (or_ones l (x % 2 ^ l) (omega (arith, two-pow-pos l)))
    ∙ last m (2 ^ w) (2 ^ l) (omega (arith, two-pow-pos w)) (two-pow-pos l)
  where
    exchange : (a b n p r : ℕ) → n ≡ a + 1 → p ≡ b + n → (p - 1) * n + r ≡ a * p + (b + r)
    exchange a b n p r e f = let g : p - 1 ≡ a + b = omega arith in rw g (rw f (rw e (omega arith)))

    last : (m p n : ℕ) → p ≡ m + 1 → 1 ≤ n → m * n + (n - 1) ≡ p * n - 1
    last m p n e h = rw e (omega arith)

-- One line of fixsize doubles the number of leading ones.
smear-Ones : (w t x : ℕ) → Ones w t x → Ones (w + w) t (smear w x)
smear-Ones w t x o =
    let (split, small) = fields o.low x in
    elim o.reach [
      | inl z ↦
          let top : 2 ^ o.high * 2 ^ 0 ≡ t = subst (λ l. 2 ^ o.high * 2 ^ l ≡ t) z o.top in
          let all : x / 2 ^ 0 ≡ 2 ^ o.high - 1 =
            subst (λ l. x / 2 ^ l ≡ 2 ^ o.high - 1) z o.leading in
          let kept = smear_ones w o.high x (omega (arith, all)) in
          record { low = 0; high = o.high; top = top; leading = rw kept all; reach = inl refl }
      | inr h ↦
          let top : 2 ^ w * 2 ^ o.low ≡ t = subst (λ k. 2 ^ k * 2 ^ o.low ≡ t) h o.top in
          let lead : x / 2 ^ o.low ≡ 2 ^ w - 1 =
            subst (λ k. x / 2 ^ o.low ≡ 2 ^ k - 1) h o.leading in
          let split' : x ≡ (2 ^ w - 1) * 2 ^ o.low + x % 2 ^ o.low =
            split ∙ ap (λ q. q * 2 ^ o.low + x % 2 ^ o.low) lead in
          step w t x o.low top split' small
    ]
  where
    fill :
        (w t x l r : ℕ)
        → 2 ^ w * (2 ^ l * 2 ^ w) ≡ t
        → x ≡ (2 ^ w - 1) * (2 ^ l * 2 ^ w) + r
        → r < 2 ^ l * 2 ^ w
        → Ones (w + w) t (smear w x)
    fill w t x l r top split small = record {
      low = l;
      high = w + w;
      top = rw (pow_add w w) (omega arith);
      leading = rw (pow_add w w) (smear_fill w l x r split small);
      reach = inr refl;
    }

    step :
        (w t x low : ℕ)
        → 2 ^ w * 2 ^ low ≡ t
        → x ≡ (2 ^ w - 1) * 2 ^ low + x % 2 ^ low
        → x % 2 ^ low < 2 ^ low
        → Ones (w + w) t (smear w x)
    step w t x low top split small = elim (Bool-cases (leb w low)) [
      | inl ge ↦
          let back : low - w + w ≡ low = omega (arith, leb→le w low ge) in
          let e : 2 ^ low ≡ 2 ^ (low - w) * 2 ^ w =
            subst (λ k. 2 ^ k ≡ 2 ^ (low - w) * 2 ^ w) back (pow_add (low - w) w) in
          fill w t x (low - w) (x % 2 ^ low) (subst (λ q. 2 ^ w * q ≡ t) e top)
            (split ∙ ap (λ q. (2 ^ w - 1) * q + x % 2 ^ low) e)
            (subst (λ q. x % 2 ^ low < q) e small)
      | inr lt ↦
          let less : low ≤ w = ground arith in
          let filled = smear_end w low x (x % 2 ^ low) less split small in
          record {
            low = 0;
            high = w + low;
            top = rw (pow_add w low) (omega arith);
            leading = rw (filled, pow_add w low) (omega arith);
            reach = inl refl;
          }
    ]

-- The place of the highest bit.
log2 : (x : ℕ) → (k : ℕ) × (2 ^ k ≤ suc x) × (suc x < 2 * 2 ^ k)
log2 zero = (0, omega arith, omega arith)
log2 (suc x) =
    let (k, lo, hi) = log2 x in
    elim (Bool-cases (ltb (suc (suc x)) (2 * 2 ^ k))) [
      | inl t ↦ (k, omega arith, ltb→lt _ _ t)
      | inr t ↦
          let ge : 2 * 2 ^ k ≤ suc (suc x) = ground arith in
          (suc k, omega (arith, two-pow-suc k), omega (arith, two-pow-suc k))
    ]

-- fixsize gives the least power of two that is at least its argument.
fixsize_lem :
    (n : ℕ) → 2 ≤ n → n ≤ 2 ^ 63 → (e : ℕ) × (fixsize n ≡ 2 ^ e) × (n ≤ 2 ^ e) × (2 ^ e < 2 * n)
fixsize_lem n big bound =
    let (k, lo, hi) = log2 (n - 2) in
    let pred : sub64 n 1 ≡ n - 1 = omega arith in
    let few : k < 63 = elim (Bool-cases (ltb k 63)) [
      | inl t ↦ ltb→lt k 63 t
      | inr t ↦ absurd (omega (arith, pow-le 63 k (ground arith)))
    ] in
    let limit : 2 ^ suc k ≤ 2 ^ 63 = pow-le (suc k) 63 few in
    let double = two-pow-suc k in
    let first : Ones 1 (2 ^ suc k) (n - 1) = record {
      low = k;
      high = 1;
      top = omega (arith, double);
      leading = div_unique (n - 1) (2 ^ k) 1 (n - 1 - 2 ^ k) (omega arith) (omega arith);
      reach = inr refl;
    } in
    let x = smear 32 (smear 16 (smear 8 (smear 4 (smear 2 (smear 1 (n - 1)))))) in
    let all : Ones 64 (2 ^ suc k) x = smear-Ones 32 _ _ (
      smear-Ones 16 _ _
        (smear-Ones 8 _ _ (smear-Ones 4 _ _ (smear-Ones 2 _ _ (smear-Ones 1 _ _ first))))) in
    let done = full_word (2 ^ suc k) x limit all in
    (suc k, unfold fixsize in rw pred (omega arith), omega arith, omega arith)
  where
    full_word : (t x : ℕ) → t ≤ 2 ^ 63 → Ones 64 t x → x + 1 ≡ t
    full_word t x h o = elim o.reach [
      | inl z ↦
          let top : 2 ^ o.high * 2 ^ 0 ≡ t = subst (λ l. 2 ^ o.high * 2 ^ l ≡ t) z o.top in
          let lead : x / 2 ^ 0 ≡ 2 ^ o.high - 1 =
            subst (λ l. x / 2 ^ l ≡ 2 ^ o.high - 1) z o.leading in
          omega (arith, two-pow-pos o.high)
      | inr w ↦
          let top : 2 ^ 64 * 2 ^ o.low ≡ t = subst (λ k. 2 ^ k * 2 ^ o.low ≡ t) w o.top in
          absurd (omega (arith, two-pow-pos o.low))
    ]

-- A request of 1 to 2 ^ 63 pages is rounded to the least power of two that holds it; a request of
-- none counts as one page.
pub round_request-least :
    (n : ℕ)
    → n ≤ 2 ^ 63
    → (e : ℕ) × (round_request n ≡ 2 ^ e)
      × (n ≤ 2 ^ e)
      × ((1 ≤ n → 2 ^ e < 2 * n) × (n ≡ 0 → e ≡ 0))
unfolding round_request
round_request-least n bound = elim (Bool-cases (n == 0)) [
  | inl z ↦ let e : n ≡ 0 = ==→eq n 0 z in (0, rw z, omega arith, (omega arith, λ _. refl))
  | inr nz ↦ elim (Bool-cases (is_power_of_2 n)) [
    | inl t ↦
        let (e, p) = pow_of_is_power_of_2 n (ground arith) (omega arith) t in
        (e, rw (nz, t) p, omega arith, (omega arith, λ q. absurd (ground arith)))
    | inr t ↦
        let two : 2 ≤ n = elim (Bool-cases (n == 1)) [
          | inl one ↦
              absurd
                (cc (sym t ∙ ap is_power_of_2 (==→eq n 1 one) ∙ is_power_of_2_pow 0 (omega arith)))
          | inr more ↦ ground arith
        ] in
        let (e, p, lo, hi) = fixsize_lem n two bound in
        (e, rw (nz, t) p, lo, (λ _. hi, λ q. absurd (ground arith)))
  ]
]
