-- ===== src/Fault/Content.antt =====
-- What fresh pages hold once a part of a file is copied into them.
use simple_rv64os.Base.{
  ℕ, zero, suc, ◌+◌, ◌-◌, ◌*◌, ◌%◌, ◌^◌, ◌<◌, ◌≤◌, ◌≡◌, ◌∙◌, ap, ◌⊎◌, inl, inr, false, ◌&&◌, arith,
  ltb, leb, if◌then◌else◌, Bool-cases,
}
use simple_rv64os.Base.Arrays.{put}
use simple_rv64os.Base.Word.{add64}
use simple_rv64os.Bytes.{Bytes, memset}
use simple_rv64os.Fault.{file_loop, set_byte, get_byte}
use simple_rv64os.Paging.Space.Page.{page_at}
use simple_rv64os.Paging.Space.Block.{in_pages}
use simple_rv64os.Fault.Zeros.{cleared-outside, cleared-inside}

-- The bytes at `dst` from the i-th on, `left` of them, are those of the file.
abbrev copied : Bytes → ℕ → ℕ → ℕ → ℕ → ℕ → ℕ
copied m dst file i left b =
    if leb (dst + i) b && ltb b (dst + i + left) then m (file + (b - dst)) % 2 ^ 8 else m b

copied-put :
    (m : Bytes) (dst file i left b : ℕ)
    → (file + (i + suc left) ≤ dst) ⊎ (dst + (i + suc left) ≤ file)
    → copied (put m (dst + i) (m (file + i) % 2 ^ 8)) dst file (i + 1) left b
      ≡ copied m dst file i (suc left) b
unfolding put
copied-put m dst file i left b (inl before) = ground arith
copied-put m dst file i left b (inr behind) = ground arith

file_loop_lem :
    (left i : ℕ) (m : Bytes) (start prev file b : ℕ)
    → start + prev + i + left ≤ 2 ^ 64
    → file + i + left ≤ 2 ^ 64
    → (file + (i + left) ≤ start + prev) ⊎ (start + prev + (i + left) ≤ file)
    → file_loop left i m start prev file b ≡ copied m (start + prev) file i left b
unfolding file_loop set_byte get_byte
file_loop_lem zero i m start prev file b fits fits' apart = ground arith
file_loop_lem (suc left) i m start prev file b fits fits' apart =
    let to : add64 start (add64 prev i) ≡ start + prev + i = omega arith in
    let from : add64 file i ≡ file + i = omega arith in
    let m1 : Bytes = put m (start + prev + i) (m (file + i) % 2 ^ 8) in
    let m1_lem : put m (add64 start (add64 prev i)) (m (add64 file i) % 2 ^ 8) ≡ m1 =
      ap (λ x. put m x (m (add64 file i) % 2 ^ 8)) to
      ∙ ap (λ x. put m (start + prev + i) (m x % 2 ^ 8)) from in
    ap (λ x. file_loop left (i + 1) x start prev file b) m1_lem
    ∙ file_loop_lem left (i + 1) m1 start prev file b (omega arith) (omega arith) (next apart)
    ∙ copied-put m (start + prev) file i left b apart
  where
    next :
        (file + (i + suc left) ≤ start + prev) ⊎ (start + prev + (i + suc left) ≤ file)
        → (file + (i + 1 + left) ≤ start + prev) ⊎ (start + prev + (i + 1 + left) ≤ file)
    next (inl before) = inl (omega arith)
    next (inr behind) = inr (omega arith)

-- A byte of the new pages: of the file from `dst` on, and zero before and behind.
abbrev pub placed : Bytes → ℕ → ℕ → ℕ → ℕ → ℕ
placed m dst file size b =
    if leb dst b && ltb b (dst + size) then m (file + (b - dst)) % 2 ^ 8 else 0

module _ (memory : Bytes) (pfn n e skip file size : ℕ) (within : n ≤ 2 ^ e)
    (fits : pfn + 2 ^ e ≤ 2 ^ 25) (part : skip + size ≤ n * 4096)
    (below : file + size ≤ page_at pfn) where
  abbrev content : Bytes
  content = file_loop size 0 (memset memory (page_at pfn) 0 (n * 4096)) (page_at pfn) skip file

  content_lem :
      (b : ℕ)
      → content b
        ≡ copied (memset memory (page_at pfn) 0 (n * 4096)) (page_at pfn + skip) file 0 size b
  content_lem b =
      file_loop_lem size 0 (memset memory (page_at pfn) 0 (n * 4096)) (page_at pfn) skip file b
        (omega arith) (omega arith) (inl (omega arith))

  pub content-outside : (b : ℕ) → in_pages pfn (2 ^ e) b ≡ false → content b ≡ memory b
  content-outside b out =
      let apart : (leb (page_at pfn + skip + 0) b && ltb b (page_at pfn + skip + 0 + size))
          ≡ false =
        ground arith in
      content_lem b ∙ rw apart (cleared-outside memory pfn n e b (omega arith) within out)

  pub content-inside :
      (b : ℕ)
      → page_at pfn ≤ b
      → b < page_at (pfn + n)
      → content b ≡ placed memory (page_at pfn + skip) file size b
  content-inside b lo hi =
      let zero_here = cleared-inside memory pfn n b (omega arith) lo hi in
      let dst = page_at pfn + skip in
      let start : dst + 0 ≡ dst = omega arith in
      elim (Bool-cases (leb dst b && ltb b (dst + size))) [
        | inl mine ↦
            let from : ℕ = file + (b - dst) in
            let low : from < page_at pfn = ground arith in
            let out : in_pages pfn (2 ^ e) from ≡ false = ground arith in
            let old = cleared-outside memory pfn n e from (omega arith) within out in
            content_lem b ∙ rw (start, mine) (ap (λ x. x % 2 ^ 8) old)
        | inr other ↦ content_lem b ∙ rw (start, other) zero_here
      ]
