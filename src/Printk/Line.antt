-- ===== src/Printk/Line.antt =====
-- The line that puti prints, read back.
use simple_rv64os.Base.{
  ℕ, ◌^◌, ◌<◌, ◌≡◌, ◌≢◌, refl, sym, ◌∙◌, ap, inl, inr, true, List, [], ◌∷◌, ◌++◌, arith, ◌==◌,
  Bool-cases, ne→==,
}
use simple_rv64os.Printk.{digits, reverse_onto, puti}
use simple_rv64os.Printk.Digits.{
  read, decimal, all_digits, sign_of, magnitude, read-reverse_onto, all_digits-reverse_onto,
  all_digits-digits, digits-value,
}

reverse_onto-++ : (k l m : List ℕ) → reverse_onto k (l ++ m) ≡ reverse_onto k l ++ m
unfolding reverse_onto
reverse_onto-++ [] l m = refl
reverse_onto-++ (x ∷ k) l m = reverse_onto-++ k (x ∷ l) m

zero_line : puti 0 ≡ sign_of 0 ++ (48 ∷ 10 ∷ [])
unfolding puti sign_of digits reverse_onto
zero_line = refl

zero_reads : read 10 decimal 0 (48 ∷ []) ≡ magnitude 0
unfolding read magnitude
zero_reads = refl

-- puti of an `int` other than the least prints a minus sign where it is negative, decimal digits that
-- read as its magnitude, and the end of the line.
pub puti_lem :
    (x : ℕ)
    → x < 2 ^ 32
    → x ≢ 2 ^ 31
    → (ds : List ℕ) × (puti x ≡ sign_of x ++ (ds ++ 10 ∷ []))
      × (all_digits ds ≡ true)
      × (read 10 decimal 0 ds ≡ magnitude x)
unfolding puti sign_of magnitude
puti_lem x lt ne = elim (Bool-cases (x == 0)) [
  | inl none_left ↦
      let e : x ≡ 0 = ground arith in
      (
        48 ∷ [],
        ap puti e ∙ zero_line ∙ ap (λ y. sign_of y ++ (48 ∷ 10 ∷ [])) (sym e),
        unfold all_digits in refl,
        zero_reads ∙ ap magnitude (sym e),
      )
  | inr more ↦
      let m = magnitude x in
      let fits : m < 10 ^ 20 = ground arith in
      (
        reverse_onto (digits 20 m) [],
        rw (more, ne→== x (2 ^ 31) ne)
            (ap (λ l. sign_of x ++ l) (reverse_onto-++ (digits 20 m) [] (10 ∷ []))),
        all_digits-reverse_onto (digits 20 m) [] (all_digits-digits 20 m)
            (unfold all_digits in refl),
        read-reverse_onto (digits 20 m) [] ∙ unfold read in digits-value 20 m fits,
      )
]
