-- ===== src/Printk/Digits.antt =====
-- The digits that vprintfmt prints, read back.
use simple_rv64os.Base.{
  ℕ, zero, suc, ◌+◌, ◌-◌, ◌*◌, ◌/◌, ◌%◌, ◌^◌, ◌<◌, ◌≡◌, ◌≢◌, refl, sym, ◌∙◌, ap, ◌⊎◌, inl, inr,
  Bool, true, false, some, List, [], ◌∷◌, ◌++◌, arith, ltb, leb, ◌==◌, ◌&&◌, if◌then◌else◌,
  Bool-cases, lt→ltb,
}
use simple_rv64os.Base.Lists.{length}
use simple_rv64os.Base.Word.{add64, sub64}
use native.Mathlib.Nat.{pow-suc}
use simple_rv64os.Printk.{
  word, vprintfmt, result_of, format_loop, format_byte, convert, convert_word, put_signed,
  long_digits, emit, finish, to_long, digits, reverse_onto, from_last,
}

-- A number in base `b` from its digits, the first digit the highest, after those that make `acc`.
unfoldable pub read : ℕ → (ℕ → ℕ) → ℕ → List ℕ → ℕ
read b digit acc [] = acc
read b digit acc (c ∷ l) = read b digit (b * acc + digit c) l

abbrev pub decimal : ℕ → ℕ
decimal c = c - 48

unfoldable pub all_digits : List ℕ → Bool
all_digits [] = true
all_digits (c ∷ l) = leb 48 c && ltb c 58 && all_digits l

-- The number of digits that stand lowest first.
pub value : List ℕ → ℕ
value [] = 0
value (c ∷ l) = (c - 48) + 10 * value l

pub digits-value : (left tmp : ℕ) → tmp < 10 ^ left → value (digits left tmp) ≡ tmp
unfolding digits value
digits-value zero tmp lt = omega arith
digits-value (suc left) tmp lt = elim (Bool-cases (tmp == 0)) [
  | inl none_left ↦ rw none_left (ground arith)
  | inr more ↦
      let ih : value (digits left (tmp / 10)) ≡ tmp / 10 =
        digits-value left (tmp / 10) (less tmp left lt) in
      rw more (omega arith)
]
  where
    less : (tmp left : ℕ) → tmp < 10 ^ suc left → tmp / 10 < 10 ^ left
    less tmp left lt = omega (arith, pow-suc 10 left)

pub read-reverse_onto :
    (k l : List ℕ) → read 10 decimal 0 (reverse_onto k l) ≡ read 10 decimal (value k) l
unfolding reverse_onto read value
read-reverse_onto [] l = refl
read-reverse_onto (c ∷ k) l =
    read-reverse_onto k (c ∷ l) ∙ ap (λ x. read 10 decimal x l) (omega arith)

pub all_digits-reverse_onto :
    (k l : List ℕ)
    → all_digits k ≡ true
    → all_digits l ≡ true
    → all_digits (reverse_onto k l) ≡ true
unfolding reverse_onto all_digits
all_digits-reverse_onto [] l a b = b
all_digits-reverse_onto (c ∷ k) l a b =
    all_digits-reverse_onto k (c ∷ l) (ground (arith, a)) (ground (arith, a, b))

pub all_digits-digits : (left tmp : ℕ) → all_digits (digits left tmp) ≡ true
unfolding digits all_digits
all_digits-digits zero tmp = refl
all_digits-digits (suc left) tmp = elim (Bool-cases (tmp == 0)) [
  | inl none_left ↦ rw none_left refl
  | inr more ↦
      let ih : all_digits (digits left (tmp / 10)) ≡ true = all_digits-digits left (tmp / 10) in
      rw more (ground (arith, ih))
]

-- What is printed for a number: '0', or a NUL and then the digits that read as it.
pub from_last-digits :
    (num : ℕ)
    → num < 2 ^ 64
    → ((num ≡ 0) × (from_last (digits 20 num) ≡ 48 ∷ []))
      ⊎ ((num ≢ 0)
          × ((ds : List ℕ) × (from_last (digits 20 num) ≡ 0 ∷ ds)
              × (read 10 decimal 0 ds ≡ num)
              × (all_digits ds ≡ true)))
unfolding from_last digits
from_last-digits num lt = elim (Bool-cases (num == 0)) [
  | inl none_left ↦
      let empty : digits 20 num ≡ [] = rw (none_left, digits) refl in
      inl (ground arith, ap from_last empty)
  | inr more ↦
      let buffer : digits 20 num ≡ (num % 10 + 48) ∷ digits 19 (num / 10) =
        rw (more, digits) refl in
      inr (
        ground arith,
        (
          reverse_onto (digits 20 num) [],
          ap from_last buffer ∙ ap (λ l. 0 ∷ reverse_onto l []) (sym buffer),
          read-reverse_onto (digits 20 num) [] ∙ unfold read in digits-value 20 num (omega arith),
          all_digits-reverse_onto (digits 20 num) [] (all_digits-digits 20 num)
              (unfold all_digits in refl),
        ),
      )
]

-- The sign and the magnitude of an `int`.
unfoldable pub sign_of : ℕ → List ℕ
sign_of w = if ltb w (2 ^ 31) then [] else 45 ∷ []

unfoldable pub magnitude : ℕ → ℕ
magnitude w = if ltb w (2 ^ 31) then w else 2 ^ 32 - w

long_digits-low : (num : ℕ) → num < 2 ^ 63 → long_digits num ≡ digits 20 num
unfolding long_digits
long_digits-low num low = rw (lt→ltb num (2 ^ 63) low) refl

decimal_run :
    (w : ℕ)
    → w < 2 ^ 32
    → (n : ℕ) × (vprintfmt (37 ∷ 100 ∷ []) (word w ∷ [])
        ≡ some (sign_of w ++ from_last (digits 20 (magnitude w)), n))
unfolding vprintfmt result_of format_loop format_byte convert convert_word put_signed emit finish
    to_long sign_of magnitude
decimal_run w lt =
    let low : w % 2 ^ 32 ≡ w = omega arith in
    elim (Bool-cases (ltb w (2 ^ 31))) [
      | inl up ↦
          let small : ltb w (2 ^ 63) ≡ true = ground arith in
          let plain = long_digits-low w (omega arith) in
          (add64 0 (length (digits 20 w) + 1) % 2 ^ 32, rw (low, up, small, plain) refl)
      | inr down ↦
          let large : ltb (w + (2 ^ 64 - 2 ^ 32)) (2 ^ 63) ≡ false = ground arith in
          let plain = long_digits-low (2 ^ 32 - w) (omega arith) in
          let size : sub64 0 (w + (2 ^ 64 - 2 ^ 32)) ≡ 2 ^ 32 - w = ground arith in
          (
            add64 1 (length (digits 20 (2 ^ 32 - w)) + 1) % 2 ^ 32,
            rw (low, down, large, size, plain) refl,
          )
    ]

-- vprintfmt of "%d": a minus sign where the `int` is negative, then '0' for 0 and, for any other
-- number, a NUL byte and decimal digits that read as its magnitude.
pub vprintfmt-decimal :
    (w : ℕ)
    → w < 2 ^ 32
    → (n : ℕ) × (((w ≡ 0) × (vprintfmt (37 ∷ 100 ∷ []) (word w ∷ []) ≡ some (48 ∷ [], n)))
        ⊎ ((w ≢ 0)
            × ((ds : List ℕ) × (vprintfmt (37 ∷ 100 ∷ []) (word w ∷ [])
                  ≡ some (sign_of w ++ 0 ∷ ds, n))
                × (read 10 decimal 0 ds ≡ magnitude w)
                × (all_digits ds ≡ true))))
vprintfmt-decimal w lt =
    let (n, run) = decimal_run w lt in
    let (fits, nonzero) = magnitude_range w lt in
    elim (from_last-digits (magnitude w) fits) [
      | inl (z, printed) ↦
          let zero_word : w ≡ 0 = nonzero z in
          let plain : sign_of w ≡ [] = ap sign_of zero_word ∙ unfold sign_of in refl in
          (
            n,
            inl (
              zero_word,
              run
                  ∙ ap (λ x. some (x, n))
                      (ap (λ x. sign_of w ++ x) printed ∙ ap (λ x. x ++ 48 ∷ []) plain),
            ),
          )
      | inr (nz, (ds, printed, reads, proper)) ↦ (
        n,
        inr (
          λ e. nz (ap magnitude e ∙ unfold magnitude in refl),
          (ds, run ∙ ap (λ x. some (sign_of w ++ x, n)) printed, reads, proper),
        ),
      )
    ]
  where
    magnitude_range : (w : ℕ) → w < 2 ^ 32 → (magnitude w < 2 ^ 64) × (magnitude w ≡ 0 → w ≡ 0)
    magnitude_range w lt = unfold magnitude in (ground arith, λ e. ground arith)
