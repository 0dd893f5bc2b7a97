-- ===== src/Bytes/Copy.antt =====
-- What memset and memcpy leave in memory.
use simple_rv64os.Base.{
  ℕ, zero, suc, ◌+◌, ◌-◌, ◌%◌, ◌^◌, ◌≤◌, ◌≡◌, refl, ◌∙◌, ap, ◌⊎◌, inl, inr, true, false, ◌&&◌,
  arith, ltb, leb, ◌==◌, if◌then◌else◌, Bool-cases, lt→ltb, ◌<◌,
}
use simple_rv64os.Base.Arrays.{put}
use simple_rv64os.Base.Ctypes.{int32_t}
use simple_rv64os.Base.Word.{add64}
use simple_rv64os.Bytes.{Bytes, memset_loop, memset, memcpy_loop, memcpy}

-- The memory after the first `i` bytes of a copy.
copied : Bytes → ℕ → ℕ → ℕ → Bytes
copied m dst src i a = if leb dst a && ltb a (dst + i) then m (src + (a - dst)) else m a

copied-suc :
    (m m' : Bytes) (dst src i b : ℕ)
    → m' b ≡ copied m dst src i b
    → put m' (dst + i) (m (src + i)) b ≡ copied m dst src (i + 1) b
unfolding copied put
copied-suc m m' dst src i b old = elim (Bool-cases (dst + i == b)) [
  | inl here ↦
      let inside : (leb dst b && ltb b (dst + (i + 1))) ≡ true = ground arith in
      let place : src + i ≡ src + (b - dst) = ground arith in rw (here, inside) (ap m place)
  | inr away ↦
      let same : (leb dst b && ltb b (dst + i)) ≡ (leb dst b && ltb b (dst + (i + 1))) =
        ground arith in
      rw away (old ∙ ap (λ c. if c then m (src + (b - dst)) else m b) same)
]

int_next : (i : ℕ) → i + 1 < 2 ^ 31 → int32_t (i + 1) ≡ i + 1
unfolding int32_t
int_next i low = ground arith

memcpy_loop_lem :
    (left i n dst src : ℕ) (m m' : Bytes)
    → i + left ≡ n
    → n < 2 ^ 31
    → dst + n ≤ 2 ^ 64
    → src + n ≤ 2 ^ 64
    → (dst ≤ src) ⊎ (src + n ≤ dst)
    → ((a : ℕ) → m' a ≡ copied m dst src i a)
    → (a : ℕ) → memcpy_loop left i m' dst src n a ≡ copied m dst src n a
unfolding memcpy_loop
memcpy_loop_lem zero i n dst src m m' e short fd fs apart h a =
    h a ∙ ap (λ x. copied m dst src x a) (omega arith)
memcpy_loop_lem (suc left) i n dst src m m' e short fd fs apart h a =
    let m1 : Bytes = put m' (add64 dst i) (m' (add64 src i)) in
    let goes_on : memcpy_loop (suc left) i m' dst src n
        ≡ memcpy_loop left (int32_t (i + 1)) m1 dst src n =
      rw (memcpy_loop, lt→ltb i n (omega arith)) refl in
    ap (λ x. x a) goes_on
    ∙ ap (λ x. memcpy_loop left x m1 dst src n a) (int_next i (omega arith))
    ∙ memcpy_loop_lem left (i + 1) n dst src m m1 (omega arith) short fd fs apart (λ b. next b) a
  where
    at_dst : add64 dst i ≡ dst + i
    at_dst = omega arith

    at_src : add64 src i ≡ src + i
    at_src = omega arith

    not_yet : copied m dst src i (src + i) ≡ m (src + i)
    not_yet =
        unfold copied in
        elim apart [
          | inl below ↦
              let out : (leb dst (src + i) && ltb (src + i) (dst + i)) ≡ false = ground arith in
              rw out refl
          | inr above ↦
              let out : (leb dst (src + i) && ltb (src + i) (dst + i)) ≡ false = ground arith in
              rw out refl
        ]

    next : (b : ℕ) → put m' (add64 dst i) (m' (add64 src i)) b ≡ copied m dst src (i + 1) b
    next b =
        let byte : m' (add64 src i) ≡ m (src + i) = ap m' at_src ∙ h (src + i) ∙ not_yet in
        ap (λ x. put m' x (m' (add64 src i)) b) at_dst
        ∙ ap (λ x. put m' (dst + i) x b) byte
        ∙ copied-suc m m' dst src i b (h b)

-- memcpy of n bytes, fewer than 2 ^ 31, within the address space, where the target starts at or before the source or behind
-- its end, leaves each byte of the target as its source was, and every other byte as it was.
pub memcpy_lem :
    (m : Bytes) (dst src n a : ℕ)
    → n < 2 ^ 31
    → dst + n ≤ 2 ^ 64
    → src + n ≤ 2 ^ 64
    → (dst ≤ src) ⊎ (src + n ≤ dst)
    → memcpy m dst src n a ≡ (if leb dst a && ltb a (dst + n) then m (src + (a - dst)) else m a)
unfolding memcpy copied
memcpy_lem m dst src n a short fd fs apart =
    memcpy_loop_lem n 0 n dst src m m (omega arith) short fd fs apart (λ b. none_yet b) a
  where
    none_yet : (b : ℕ) → m b ≡ copied m dst src 0 b
    none_yet b = let out : (leb dst b && ltb b (dst + 0)) ≡ false = ground arith in rw out refl

memset_loop_lem :
    (left i n dst c : ℕ) (m m' : Bytes)
    → i + left ≡ n
    → dst + n ≤ 2 ^ 64
    → ((a : ℕ) → m' a ≡ (if leb dst a && ltb a (dst + i) then c % 2 ^ 8 else m a))
    → (a : ℕ)
    → memset_loop left i m' dst c a ≡ (if leb dst a && ltb a (dst + n) then c % 2 ^ 8 else m a)
unfolding memset_loop
memset_loop_lem zero i n dst c m m' e fd h a =
    h a ∙ ap (λ x. if leb dst a && ltb a (dst + x) then c % 2 ^ 8 else m a) (omega arith)
memset_loop_lem (suc left) i n dst c m m' e fd h a =
    memset_loop_lem left (i + 1) n dst c m (put m' (add64 dst i) (c % 2 ^ 8)) (omega arith) fd
      (λ b. next b) a
  where
    next :
        (b : ℕ)
        → put m' (add64 dst i) (c % 2 ^ 8) b
          ≡ (if leb dst b && ltb b (dst + (i + 1)) then c % 2 ^ 8 else m b)
    next b =
        let at : add64 dst i ≡ dst + i = omega arith in
        ap (λ x. put m' x (c % 2 ^ 8) b) at
        ∙ unfold put in
          elim (Bool-cases (dst + i == b)) [
            | inl here ↦
                let inside : (leb dst b && ltb b (dst + (i + 1))) ≡ true = ground arith in
                rw (here, inside) refl
            | inr away ↦
                let same : (leb dst b && ltb b (dst + i)) ≡ (leb dst b && ltb b (dst + (i + 1))) =
                  ground arith in
                rw away (h b ∙ ap (λ x. if x then c % 2 ^ 8 else m b) same)
          ]

-- memset of n bytes within the address space sets each of them to the low byte of c and leaves every
-- other byte as it was.
pub memset_lem :
    (m : Bytes) (dst c n a : ℕ)
    → dst + n ≤ 2 ^ 64
    → memset m dst c n a ≡ (if leb dst a && ltb a (dst + n) then c % 2 ^ 8 else m a)
unfolding memset
memset_lem m dst c n a fd = memset_loop_lem n 0 n dst c m m (omega arith) fd (λ b. none_yet b) a
  where
    none_yet : (b : ℕ) → m b ≡ (if leb dst b && ltb b (dst + 0) then c % 2 ^ 8 else m b)
    none_yet b = let out : (leb dst b && ltb b (dst + 0)) ≡ false = ground arith in rw out refl
