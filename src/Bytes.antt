-- ===== src/Bytes.antt =====
-- Memory as bytes: words in it, least byte first, memset and memcpy of lib/string.c and pgcpy of
-- include/string.h. An address is a kernel address; those of user space are translated first.
pub mod Copy
pub mod Words
mod Examples
use simple_rv64os.Base.{ℕ, zero, suc, ◌+◌, ◌*◌, ◌/◌, ◌%◌, ◌^◌, ltb, if◌then◌else◌}
use simple_rv64os.Base.Ctypes.{int32_t}
use simple_rv64os.Base.Arrays.{put}
use simple_rv64os.Base.Word.{add64}
use simple_rv64os.Defs.{pgsize}

abbrev pub Bytes : Type 0
Bytes = ℕ → ℕ

-- The word of `n` bytes at an address, and a word stored there.
unfoldable pub load_bytes : ℕ → Bytes → ℕ → ℕ
load_bytes zero m a = 0
load_bytes (suc n) m a = m a + 256 * load_bytes n m (a + 1)

unfoldable pub store_bytes : ℕ → Bytes → ℕ → ℕ → Bytes
store_bytes zero m a w = m
store_bytes (suc n) m a w = store_bytes n (put m a (w % 256)) (a + 1) (w / 256)

-- A `uint64` in memory.
unfoldable pub load64 : Bytes → ℕ → ℕ
load64 m a = load_bytes 8 m a

unfoldable pub store64 : Bytes → ℕ → ℕ → Bytes
store64 m a w = store_bytes 8 m a w

-- The loop from index `i` with `left` bytes to go; a byte holds the low 8 bits of the `int`.
unfoldable pub memset_loop : ℕ → ℕ → Bytes → ℕ → ℕ → Bytes
memset_loop zero i m dst c = m
memset_loop (suc left) i m dst c = memset_loop left (i + 1) (put m (add64 dst i) (c % 2 ^ 8)) dst c

unfoldable pub memset : Bytes → ℕ → ℕ → ℕ → Bytes
memset m dst c n = memset_loop n 0 m dst c

-- for (int i = 0; i < sz; i++), with `left` rounds at most. The `int` is compared as a `uint64`; its
-- overflow, which C leaves undefined, wraps.
unfoldable pub memcpy_loop : ℕ → ℕ → Bytes → ℕ → ℕ → ℕ → Bytes
memcpy_loop zero i m dst src sz = m
memcpy_loop (suc left) i m dst src sz =
    let rest =
      memcpy_loop left (int32_t (i + 1)) (put m (add64 dst i) (m (add64 src i))) dst src sz in
    if ltb i sz then rest else m

unfoldable pub memcpy : Bytes → ℕ → ℕ → ℕ → Bytes
memcpy m dst src sz = memcpy_loop sz 0 m dst src sz

unfoldable pub pgcpy : Bytes → ℕ → ℕ → Bytes
pgcpy m dst src = memcpy m dst src pgsize
