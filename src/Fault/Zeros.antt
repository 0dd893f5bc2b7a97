-- ===== src/Fault/Zeros.antt =====
-- Fresh pages after memset.
use simple_rv64os.Base.{
  ℕ, ◌+◌, ◌*◌, ◌^◌, ◌<◌, ◌≤◌, ◌≡◌, refl, ◌∙◌, true, false, ◌&&◌, arith, ltb, leb,
}
use simple_rv64os.Bytes.{Bytes, memset}
use simple_rv64os.Bytes.Copy.{memset_lem}
use simple_rv64os.Paging.Space.Page.{page_at}
use simple_rv64os.Paging.Space.Block.{in_pages}

pub cleared-outside :
    (memory : Bytes) (pfn n e b : ℕ)
    → page_at pfn + n * 4096 ≤ 2 ^ 64
    → n ≤ 2 ^ e
    → in_pages pfn (2 ^ e) b ≡ false
    → memset memory (page_at pfn) 0 (n * 4096) b ≡ memory b
cleared-outside memory pfn n e b fits within out =
    let apart : (leb (page_at pfn) b && ltb b (page_at pfn + n * 4096)) ≡ false = ground arith in
    memset_lem memory (page_at pfn) 0 (n * 4096) b fits ∙ rw apart refl

pub cleared-inside :
    (memory : Bytes) (pfn n b : ℕ)
    → page_at pfn + n * 4096 ≤ 2 ^ 64
    → page_at pfn ≤ b
    → b < page_at (pfn + n)
    → memset memory (page_at pfn) 0 (n * 4096) b ≡ 0
cleared-inside memory pfn n b fits lo hi =
    let inside : (leb (page_at pfn) b && ltb b (page_at pfn + n * 4096)) ≡ true = ground arith in
    memset_lem memory (page_at pfn) 0 (n * 4096) b fits ∙ rw inside refl
