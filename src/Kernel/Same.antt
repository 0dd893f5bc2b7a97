-- ===== src/Kernel/Same.antt =====
-- What page faults and sys_write leave alone: the tasks and the scheduler.
use simple_rv64os.Base.{
  ℕ, zero, suc, ◌+◌, ◌≡◌, refl, ◌∙◌, Option, none, some, [], ◌∷◌, Bool, true, false, ◌==◌,
  if◌then◌else◌,
}
use simple_rv64os.Defs.Numbers.{stdout}
use simple_rv64os.Firmware.{putc, puts}
use simple_rv64os.Kernel.{Kernel, Layout}
use simple_rv64os.Kernel.Write.{
  fault_at, mapped_byte, with_kernel, user_byte, write_loop, sys_write,
}
use simple_rv64os.Run.{done, ◌>>=◌}
use simple_rv64os.Run.Always.{Always, Always-any, Always->>=}
use simple_rv64os.Sched.{Sched}

-- The scheduler's state is the one given.
unfoldable pub Same : Sched → Kernel → Type 0
Same s k = k.sched ≡ s

unfoldable pub Same1 : Sched → ℕ × Kernel → Type 0
Same1 s r = r.1.sched ≡ s

pub fault_at-Same :
    (lay : Layout) (addr : ℕ) (k : Kernel) → Always (Same k.sched) (fault_at lay addr k)
unfolding fault_at Always Same
fault_at-Same lay addr k =
    Always-any (Same k.sched) _ _ (λ t. Always-any (Same k.sched) _ _ (λ m. refl))

with_kernel-Same1 :
    (s : Sched) (k : Kernel) (o : Option ℕ) → k.sched ≡ s → Always (Same1 s) (with_kernel k o)
unfolding Always Same1
with_kernel-Same1 s k none e = tt
with_kernel-Same1 s k (some c) e = e

user_byte-Same1 :
    (s : Sched) (lay : Layout) (addr : ℕ) (k : Kernel)
    → k.sched ≡ s
    → Always (Same1 s) (user_byte lay addr k)
unfolding user_byte
user_byte-Same1 s lay addr k e = go (mapped_byte k addr)
  where
    go :
        (o : Option ℕ)
        → Always (Same1 s) (elim o [
          | some c ↦ done (c, k)
          | none ↦ fault_at lay addr k >>= λ k'. with_kernel k' (mapped_byte k' addr)
        ])
    go none =
        Always->>= (Same k.sched) (Same1 s) _ _ (fault_at-Same lay addr k)
          (λ k' same. with_kernel-Same1 s k' _ (unfold Same in same ∙ e))
    go (some c) = unfold Always Same1 in e

write_loop-Same1 :
    (s : Sched) (lay : Layout) (left cnt buf : ℕ) (k : Kernel)
    → k.sched ≡ s
    → Always (Same1 s) (write_loop lay left cnt buf k)
unfolding write_loop Same1
write_loop-Same1 s lay zero cnt buf k e = unfold Always in e
write_loop-Same1 s lay (suc left) cnt buf k e =
    Always->>= (Same1 s) (Same1 s) _ _ (user_byte-Same1 s lay _ k e) (λ r same.
      branch (r.0 == 0) r same (
        write_loop-Same1 s lay left (cnt + 1) buf (record r.1 { calls = putc r.0 r.1.calls }) same))
  where
    branch :
        (b : Bool) (r : ℕ × Kernel)
        → r.1.sched ≡ s
        → Always
            (Same1 s)
            (write_loop lay left (cnt + 1) buf (record r.1 { calls = putc r.0 r.1.calls }))
        → Always (Same1 s) (
            if b
            then done (cnt, r.1)
            else write_loop lay left (cnt + 1) buf (record r.1 { calls = putc r.0 r.1.calls }))
    branch true r same rest = unfold Always in same
    branch false r same rest = rest

pub sys_write-Same1 :
    (lay : Layout) (fd buf size : ℕ) (k : Kernel)
    → Always (Same1 k.sched) (sys_write lay fd buf size k)
unfolding sys_write
sys_write-Same1 lay fd buf size k = go (fd == stdout)
  where
    go :
        (b : Bool)
        → Always (Same1 k.sched) (
            if b
            then write_loop lay size 0 buf (record k { calls = puts (36 ∷ 32 ∷ []) k.calls })
            else done (0, k))
    go true = write_loop-Same1 k.sched lay size 0 buf _ refl
    go false = unfold Always Same1 in refl
