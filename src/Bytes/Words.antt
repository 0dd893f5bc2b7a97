-- ===== src/Bytes/Words.antt =====
-- Words in memory: what is stored is read back, and nothing else changes.
use simple_rv64os.Base.{
  ℕ, zero, suc, ◌+◌, ◌/◌, ◌%◌, ◌^◌, ◌<◌, ◌≤◌, ◌≡◌, refl, ◌∙◌, ◌⊎◌, inl, inr, arith,
}
use native.Mathlib.Nat.{pow-suc}
use simple_rv64os.Base.Arrays.{put, put-same, put-other}
use simple_rv64os.Bytes.{Bytes, load_bytes, store_bytes, load64, store64}

-- A byte outside the word of 8 bytes at `a`.
abbrev pub Outside : ℕ → ℕ → Type 0
Outside a b = (b < a) ⊎ (a + 8 ≤ b)

store_bytes-outside :
    (n : ℕ) (m : Bytes) (a w b : ℕ) → (b < a) ⊎ (a + n ≤ b) → store_bytes n m a w b ≡ m b
unfolding store_bytes
store_bytes-outside zero m a w b out = refl
store_bytes-outside (suc n) m a w b out =
    store_bytes-outside n (put m a (w % 256)) (a + 1) (w / 256) b (out_next out)
    ∙ put-other m a (w % 256) b (out_ne out)
  where
    out_next : (b < a) ⊎ (a + suc n ≤ b) → (b < a + 1) ⊎ (a + 1 + n ≤ b)
    out_next (inl l) = inl (omega arith)
    out_next (inr r) = inr (omega arith)

    out_ne : (b < a) ⊎ (a + suc n ≤ b) → ◌≡◌ {A = ℕ} a b → ⊥
    out_ne (inl l) e = omega arith
    out_ne (inr r) e = omega arith

load_bytes-same :
    (n : ℕ) (m m' : Bytes) (a : ℕ)
    → ((b : ℕ) → a ≤ b → b < a + n → m b ≡ m' b)
    → load_bytes n m a ≡ load_bytes n m' a
unfolding load_bytes
load_bytes-same zero m m' a same = refl
load_bytes-same (suc n) m m' a same =
    let here = same a (omega arith) (omega arith) in
    let rest = load_bytes-same n m m' (a + 1) (λ b lo hi. same b (omega arith) (omega arith)) in
    omega arith

load_bytes-store_bytes :
    (n : ℕ) (m : Bytes) (a w : ℕ) → w < 256 ^ n → load_bytes n (store_bytes n m a w) a ≡ w
unfolding load_bytes store_bytes
load_bytes-store_bytes zero m a w lt = omega arith
load_bytes-store_bytes (suc n) m a w lt =
    let low = store_bytes-outside n (put m a (w % 256)) (a + 1) (w / 256) a (inl (omega arith)) in
    let byte = put-same m a (w % 256) in
    let high =
      load_bytes-store_bytes n (put m a (w % 256)) (a + 1) (w / 256)
        (omega (arith, pow-suc 256 n)) in
    omega arith

pub load64-store64 : (m : Bytes) (a w : ℕ) → w < 2 ^ 64 → load64 (store64 m a w) a ≡ w
unfolding load64 store64
load64-store64 m a w lt = load_bytes-store_bytes 8 m a w lt

pub store64-Outside : (m : Bytes) (a w b : ℕ) → Outside a b → store64 m a w b ≡ m b
unfolding store64
store64-Outside m a w b out = store_bytes-outside 8 m a w b out

pub load64-same :
    (m m' : Bytes) (a : ℕ) → ((b : ℕ) → a ≤ b → b < a + 8 → m b ≡ m' b) → load64 m a ≡ load64 m' a
unfolding load64
load64-same m m' a same = load_bytes-same 8 m m' a same

load_bytes-zero :
    (n : ℕ) (m : Bytes) (a : ℕ) → ((b : ℕ) → a ≤ b → b < a + n → m b ≡ 0) → load_bytes n m a ≡ 0
unfolding load_bytes
load_bytes-zero zero m a clear = refl
load_bytes-zero (suc n) m a clear =
    let here = clear a (omega arith) (omega arith) in
    let rest = load_bytes-zero n m (a + 1) (λ b lo hi. clear b (omega arith) (omega arith)) in
    omega arith

pub load64-zero : (m : Bytes) (a : ℕ) → ((b : ℕ) → a ≤ b → b < a + 8 → m b ≡ 0) → load64 m a ≡ 0
unfolding load64
load64-zero m a clear = load_bytes-zero 8 m a clear
