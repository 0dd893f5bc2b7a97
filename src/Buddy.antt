-- ===== src/Buddy.antt =====
-- The buddy allocator of arch/riscv/kernel/mm.c (`struct buddy` is in arch/riscv/include/mm.h).
-- `bitmap` is the array of longest free blocks, a map from indices to `uint64_t`.
-- Loops that end by `index` reaching 0 run on the index itself, which the parent always lowers;
-- the loop that halves `node_size` returns `none` if it never meets the request.
pub mod Tree
pub mod Local
pub mod Claim
pub mod Alloc
pub mod Pages
pub mod Take
pub mod Room
pub mod Lowest
pub mod Release
pub mod Climb
pub mod Merge
pub mod Freed
pub mod Free
pub mod RoundTrip
pub mod Round
mod Examples
use simple_rv64os.Base.{
  ℕ, zero, suc, ◌/◌, ◌^◌, Bool, not, Option, none, some, bit_and, bit_or, ltb, leb, ◌==◌,
  if◌then◌else◌,
}
use simple_rv64os.Base.Word.{add64, sub64, mul64}

abbrev pub Bitmap : Type 0
Bitmap = ℕ → ℕ

pub record Buddy : Type 0 where
  pub size : ℕ
  pub bitmap : Bitmap

-- `bitmap[i] = v`
abbrev pub upd : Bitmap → ℕ → ℕ → Bitmap
upd m i v j = if i == j then v else m j

unfoldable pub left_leaf : ℕ → ℕ
left_leaf i = add64 (mul64 i 2) 1

unfoldable pub right_leaf : ℕ → ℕ
right_leaf i = add64 (mul64 i 2) 2

unfoldable pub parent : ℕ → ℕ
parent i = sub64 (add64 i 1 / 2) 1

abbrev pub max_of : ℕ → ℕ → ℕ
max_of a b = if ltb b a then a else b

unfoldable pub is_power_of_2 : ℕ → Bool
is_power_of_2 x = bit_and x (sub64 x 1) == 0

unfoldable pub smear : ℕ → ℕ → ℕ
smear k size = bit_or size (size / 2 ^ k)

unfoldable pub fixsize : ℕ → ℕ
unfolding smear
fixsize size = add64 (smear 32 (smear 16 (smear 8 (smear 4 (smear 2 (smear 1 (sub64 size 1))))))) 1

-- The request, as `buddy_alloc` rounds it.
unfoldable pub round_request : ℕ → ℕ
unfolding is_power_of_2 fixsize
round_request n = if n == 0 then 1 else if not (is_power_of_2 n) then fixsize n else n

-- for (node_size = size; node_size != nrpages; node_size /= 2) go to the left child if it holds
-- the request, else to the right one.
pub descend : ℕ → Bitmap → ℕ → ℕ → ℕ → Option (ℕ × ℕ)
descend zero m n s i = none
descend (suc f) m n s i =
    let rest =
      descend f m n (s / 2) (if leb n (m (left_leaf i)) then left_leaf i else right_leaf i) in
    if s == n then some (i, s) else rest

-- while (index): the parent takes the larger of its children.
pub refresh : ℕ → Bitmap → ℕ → Bitmap
refresh zero m i = m
refresh (suc f) m i =
    let p = parent i in
    let rest = refresh f (upd m p (max_of (m (left_leaf p)) (m (right_leaf p)))) p in
    if i == 0 then m else rest

-- `none` stands for a descent that does not end.
unfoldable pub buddy_alloc : Buddy → ℕ → Option (ℕ × Buddy)
unfolding round_request descend refresh left_leaf right_leaf parent
buddy_alloc b nrpages =
    let n = round_request nrpages in
    if ltb (b.bitmap 0) n then some (0, b) else elim (descend (suc b.size) b.bitmap n b.size 0) [
      | none ↦ none
      | some (i, s) ↦
          some (
            sub64 (mul64 (add64 i 1) s) b.size,
            record b { bitmap = refresh i (upd b.bitmap i 0) i },
          )
    ]

-- for (; bitmap[index]; index = PARENT(index)) { node_size *= 2; if (index == 0) break; }
pub find_block : ℕ → Bitmap → ℕ → ℕ → ℕ × ℕ
find_block zero m s i = (i, s)
find_block (suc f) m s i =
    let rest = find_block f m (mul64 s 2) (parent i) in
    if m i == 0 then (i, s) else if i == 0 then (i, mul64 s 2) else rest

-- while (index): the parent of two free halves is whole again.
pub merge : ℕ → Bitmap → ℕ → ℕ → Bitmap
merge zero m s i = m
merge (suc f) m s i =
    let p = parent i in
    let s' = mul64 s 2 in
    let l = m (left_leaf p) in
    let r = m (right_leaf p) in
    let rest = merge f (upd m p (if add64 l r == s' then s' else max_of l r)) s' p in
    if i == 0 then m else rest

unfoldable pub buddy_free : Buddy → ℕ → Buddy
unfolding find_block merge left_leaf right_leaf parent
buddy_free b pfn =
    let leaf = sub64 (add64 pfn b.size) 1 in
    let (i, s) = find_block (suc leaf) b.bitmap 1 leaf in
    record b { bitmap = merge i (upd b.bitmap i s) s i }
