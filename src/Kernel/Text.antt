-- ===== src/Kernel/Text.antt =====
-- What sys_write puts on the console, for bytes that the running task has mapped.
use simple_rv64os.Base.{
  ℕ, zero, suc, ◌+◌, ◌≡◌, ◌≢◌, refl, sym, ◌∙◌, ap, some, List, [], ◌∷◌, ◌++◌, arith, eq→==, ne→==,
}
use mathlib.Core.List.{append_assoc, append-nil}
use simple_rv64os.Base.Lists.{length}
use simple_rv64os.Base.Word.{add64}
use simple_rv64os.Defs.Numbers.{stdout}
use simple_rv64os.Firmware.{Calls, putc, puts}
use simple_rv64os.Firmware.Print.{putchar_call, putchar_calls, putc_lem, puts_lem}
use simple_rv64os.Kernel.{Kernel, Layout, get_cur_task}
use simple_rv64os.Kernel.Write.{mapped_byte, user_byte, write_loop, sys_write}
use simple_rv64os.Run.{Run, done, ◌>>=◌}

-- From place `cnt` of the buffer on, the running task has these bytes, none of which is NUL, and then,
-- if `left` goes beyond them, a NUL.
pub data IsText (k : Kernel) (buf : ℕ) : ℕ → ℕ → List ℕ → Type 0 where
  full : (cnt : ℕ) → IsText k buf zero cnt []
  ended : (left cnt : ℕ) → mapped_byte k (add64 buf cnt) ≡ some 0 → IsText k buf (suc left) cnt []
  more :
      (left cnt c : ℕ) (s : List ℕ)
      → mapped_byte k (add64 buf cnt) ≡ some c
      → c ≢ 0
      → IsText k buf left (cnt + 1) s
      → IsText k buf (suc left) cnt (c ∷ s)

-- The bytes do not depend on what was printed.
mapped_byte-calls :
    (k : Kernel) (calls : Calls) (addr : ℕ)
    → mapped_byte (record k { calls = calls }) addr ≡ mapped_byte k addr
unfolding mapped_byte get_cur_task
mapped_byte-calls k calls addr = refl

user_byte-mapped :
    (lay : Layout) (addr c : ℕ) (k : Kernel)
    → mapped_byte k addr ≡ some c
    → user_byte lay addr k ≡ done (c, k)
unfolding user_byte
user_byte-mapped lay addr c k e = rw (user_byte, e) refl

printed : Kernel → ℕ → Calls → Run (ℕ × Kernel)
printed k n calls = done (n, record k { calls = calls })

nothing :
    (lay : Layout) (cnt : ℕ) (k : Kernel) (calls : Calls)
    → printed k cnt calls ≡ printed k (cnt + 0) (calls ++ [])
unfolding printed
nothing lay cnt k calls =
    ap (λ n. printed k n calls) (omega arith) ∙ ap (printed k (cnt + 0)) (sym (append-nil calls))

write_loop-IsText :
    (lay : Layout) (k : Kernel) (buf left cnt : ℕ) (s : List ℕ) (calls : Calls)
    → IsText k buf left cnt s
    → write_loop lay left cnt buf (record k { calls = calls })
      ≡ printed k (cnt + length s) (calls ++ putchar_calls s)
unfolding write_loop putchar_calls length printed ◌>>=◌
write_loop-IsText lay k buf left cnt s calls (full cnt') = nothing lay cnt k calls
write_loop-IsText lay k buf left cnt s calls (ended left' cnt' e) =
    rw
      (user_byte-mapped lay (add64 buf cnt) 0 (record k { calls = calls })
        (mapped_byte-calls k calls (add64 buf cnt) ∙ e))
      (nothing lay cnt k calls)
write_loop-IsText lay k buf left cnt s calls (more left' cnt' c s' e ne rest) =
    rw
      (
        user_byte-mapped lay (add64 buf cnt) c (record k { calls = calls })
            (mapped_byte-calls k calls (add64 buf cnt) ∙ e),
        ne→== c 0 ne,
      )
      (write_loop-IsText lay k buf left' (cnt + 1) s' (putc c calls) rest
        ∙ ap (λ n. printed k n (putc c calls ++ putchar_calls s')) (omega arith)
        ∙ ap (printed k (cnt + (1 + length s'))) (
            ap (λ l. l ++ putchar_calls s') (putc_lem c calls)
            ∙ append_assoc calls (putchar_call c ∷ []) (putchar_calls s')))

-- Where the running task has the text in mapped pages, a write of it to the console prints "$ " and
-- then its bytes, in their order and up to the NUL or the size given; the result is their number, and
-- nothing else of the kernel has changed. A write to any other descriptor prints nothing and returns 0.
pub sys_write-IsText :
    (lay : Layout) (fd buf size : ℕ) (s : List ℕ) (k : Kernel)
    → IsText k buf size 0 s
    → (fd ≡ stdout
        → sys_write lay fd buf size k
          ≡ done (length s, record k { calls = k.calls ++ putchar_calls (36 ∷ 32 ∷ s) }))
      × (fd ≢ stdout → sys_write lay fd buf size k ≡ done (0, k))
unfolding sys_write printed putchar_calls
sys_write-IsText lay fd buf size s k t = (
  λ out. rw (eq→== fd stdout out) (
      write_loop-IsText lay k buf size 0 s (puts (36 ∷ 32 ∷ []) k.calls) t
      ∙ ap (λ n. printed k n (puts (36 ∷ 32 ∷ []) k.calls ++ putchar_calls s)) (omega arith)
      ∙ ap (printed k (length s)) (
          ap (λ l. l ++ putchar_calls s) (puts_lem (36 ∷ 32 ∷ []) k.calls)
          ∙ append_assoc k.calls (putchar_calls (36 ∷ 32 ∷ [])) (putchar_calls s))),
  λ other. rw (ne→== fd stdout other) refl,
)
