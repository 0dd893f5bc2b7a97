-- ===== src/Printk/Hex.antt =====
-- The half bytes that vprintfmt prints for "%x", read back.
use simple_rv64os.Base.{
  ℕ, zero, suc, ◌+◌, ◌-◌, ◌*◌, ◌/◌, ◌%◌, ◌^◌, ◌<◌, ◌≤◌, ◌≡◌, ◌∙◌, ap, bit_and, arith, ltb,
  if◌then◌else◌, two-pow-pos, pow_add,
}
use native.Mathlib.Nat.{mul-add-mod_self_right, mod-eq_of_lt}
use simple_rv64os.Base.Masks.{and_low}
use simple_rv64os.Printk.{hex_loop, hexchar}
use simple_rv64os.Printk.Digits.{read}

abbrev pub hexadecimal : ℕ → ℕ
hexadecimal c = if ltb c 58 then c - 48 else c - 87

hexchar_lem : (d : ℕ) → d < 16 → hexadecimal (hexchar d) ≡ d
unfolding hexchar
hexchar_lem d lt = ground arith

-- The half bytes below the n-th read as those bits of the number.
pub read-hex_loop :
    (n num acc : ℕ)
    → read 16 hexadecimal acc (hex_loop n num) ≡ acc * 2 ^ (4 * n) + num % 2 ^ (4 * n)
unfolding read hex_loop
read-hex_loop zero num acc = omega arith
read-hex_loop (suc n) num acc =
    let d = num / 2 ^ (4 * n) % 2 ^ 4 in
    let low : bit_and (num / 2 ^ (4 * n)) 15 ≡ d = and_low 4 (num / 2 ^ (4 * n)) in
    let head : hexadecimal (hexchar (bit_and (num / 2 ^ (4 * n)) 15)) ≡ d =
      ap (λ x. hexadecimal (hexchar x)) low ∙ hexchar_lem d (omega arith) in
    ap (λ x. read 16 hexadecimal (16 * acc + x) (hex_loop n num)) head
    ∙ read-hex_loop n num (16 * acc + d)
    ∙ shifted (2 ^ (4 * n)) (2 ^ (4 * suc n)) (two-pow-pos (4 * n)) power
  where
    bound : (a b p : ℕ) → a < 16 → b < p → a * p + b < 16 * p
    bound a b p lt lt' = let step : a * p ≤ 15 * p = grind arith in omega arith

    power : 2 ^ (4 * suc n) ≡ 16 * 2 ^ (4 * n)
    power = ap (λ x. 2 ^ x) (omega arith) ∙ pow_add 4 (4 * n)

    shifted :
        (p r : ℕ) → 1 ≤ p → r ≡ 16 * p → (16 * acc + num / p % 16) * p + num % p ≡ acc * r + num % r
    shifted p r pos e =
        let q = num / p in
        let low : num % p < p = ground (arith, pos) in
        let parts : num ≡ q * p + num % p = ground (arith, pos) in
        let top : q ≡ q / 16 * 16 + q % 16 = omega arith in
        let few : q % 16 < 16 = omega arith in
        let split : num ≡ q / 16 * (16 * p) + (q % 16 * p + num % p) =
          parts ∙ ap (λ x. x * p + num % p) top ∙ omega arith in
        let less : q % 16 * p + num % p < 16 * p = bound (q % 16) (num % p) p few low in
        let rest : num % (16 * p) ≡ q % 16 * p + num % p =
          ap (λ x. x % (16 * p)) split
          ∙ mul-add-mod_self_right (q / 16) (16 * p) (q % 16 * p + num % p)
          ∙ mod-eq_of_lt less in
        rw (e, rest) (omega arith)
