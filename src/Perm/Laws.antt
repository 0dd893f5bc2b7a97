-- ===== src/Perm/Laws.antt =====
-- What the functions between access rights compute.
use simple_rv64os.Base.{
  ℕ, zero, suc, ◌+◌, ◌*◌, ◌/◌, ◌%◌, ◌^◌, ◌<◌, ◌≡◌, ◌≢◌, refl, sym, ◌∙◌, ap, Bool, true, false, ◌&&◌,
  bit_and, bit_or, arith, ◌==◌, if◌then◌else◌, ==→eq, ne→==,
}
use simple_rv64os.Base.Bits.{and_fields, and-zero}
use simple_rv64os.Base.Masks.{fields, or_low}
use simple_rv64os.Perm.{map_vm_perm, perm_elf2vm, perm_elf2pte, map_elf_perm}

-- A mask of k bits sees the k low bits only.
and_low_bits : (k m x : ℕ) → m < 2 ^ k → bit_and x m ≡ bit_and (x % 2 ^ k) m
and_low_bits k m x h =
    let (e, lt) = fields k x in
    let mask : m ≡ 0 * 2 ^ k + m = omega arith in
    ap (λ t. bit_and t m) e
    ∙ ap (λ t. bit_and (x / 2 ^ k * 2 ^ k + x % 2 ^ k) t) mask
    ∙ and_fields k (x / 2 ^ k) (x % 2 ^ k) 0 m lt h
    ∙ rw (and-zero (x / 2 ^ k)) (omega arith)

check_below : ℕ → (ℕ → Bool) → Bool
check_below zero p = true
check_below (suc n) p = p n && check_below n p

check_below-true : (n : ℕ) (p : ℕ → Bool) (x : ℕ) → check_below n p ≡ true → x < n → p x ≡ true
unfolding check_below
check_below-true zero p x h lt = absurd (omega arith)
check_below-true (suc n) p x h lt = ground (arith, check_below-true n p x)

perm_table : check_below 16 (λ r. map_vm_perm r == bit_and r 14) ≡ true
unfolding check_below map_vm_perm
perm_table = refl

-- map_vm_perm keeps exactly the three access bits of a VMA's flags, as the page table's bits.
pub map_vm_perm-mask : (p : ℕ) → map_vm_perm p ≡ bit_and p 14
map_vm_perm-mask p =
    let r = p % 2 ^ 4 in
    let same : map_vm_perm p ≡ map_vm_perm r =
      unfold map_vm_perm in
      rw
        (
          and_low_bits 4 2 p (omega arith),
          and_low_bits 4 4 p (omega arith),
          and_low_bits 4 8 p (omega arith),
        )
        refl in
    same
    ∙ ==→eq _ _
        (check_below-true 16 (λ r. map_vm_perm r == bit_and r 14) r perm_table (omega arith))
    ∙ sym (and_low_bits 4 14 p (omega arith))

or_nonzero :
    (p m : ℕ)
    → m < 2 ^ 3
    → check_below 8 (λ r. if bit_or r m == 0 then false else true) ≡ true
    → bit_or p m ≢ 0
or_nonzero p m h table z =
    let e = or_low 3 p m h in
    let r = check_below-true 8 _ (p % 2 ^ 3) table (omega arith) in
    let low : bit_or (p % 2 ^ 3) m ≡ 0 = omega arith in
    cc (sym r ∙ ap (λ x. if x == 0 then false else true) low)

-- The three conversions from segment flags give every right, whatever the flags say.
pub perm_elf-all : (p : ℕ) → (perm_elf2vm p ≡ 14) × (perm_elf2pte p ≡ 14) × (map_elf_perm p ≡ 14)
unfolding perm_elf2vm perm_elf2pte map_elf_perm check_below
perm_elf-all p =
    let w = ne→== _ 0 (or_nonzero p 2 (omega arith) refl) in
    let r = ne→== _ 0 (or_nonzero p 4 (omega arith) refl) in
    let x = ne→== _ 0 (or_nonzero p 1 (omega arith) refl) in
    (rw (w, r, x) refl, rw (w, r, x) refl, rw (w, r, x) refl)
