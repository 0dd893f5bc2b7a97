-- ===== src/Kernel/Write.antt =====
-- sys_write and sys_getpid of arch/riscv/kernel/syscall.c. The kernel reads the user's bytes through
-- the table in use; where that has no page yet, the load itself traps, do_page_fault fills the area and
-- the load is made again.
use simple_rv64os.Base.{
  ℕ, zero, suc, ◌+◌, ◌%◌, ◌^◌, [], ◌∷◌, Option, none, some, ◌==◌, if◌then◌else◌,
}
use simple_rv64os.Base.Word.{add64}
use simple_rv64os.Defs.{pa2va}
use simple_rv64os.Defs.Numbers.{stdout}
use simple_rv64os.Fault.{do_page_fault}
use simple_rv64os.Firmware.{putc, puts}
use simple_rv64os.Kernel.{Kernel, Layout, get_cur_task}
use simple_rv64os.Paging.Walk.{translate}
use simple_rv64os.Rand.{widen_int}
use simple_rv64os.Run.{Run, done, stuck, of_option, ◌>>=◌}

-- A page fault of the current task at an address.
unfoldable pub fault_at : Layout → ℕ → Kernel → Run Kernel
fault_at lay err_addr k = do
  task ← of_option (get_cur_task k)
  machine ← do_page_fault lay.uapp_start k.machine task err_addr
  done (record k { machine = machine })

-- The byte at a user address, if a page is there.
unfoldable pub mapped_byte : Kernel → ℕ → Option ℕ
mapped_byte k addr = elim (get_cur_task k) [
  | none ↦ none
  | some task ↦ elim (translate k.machine.memory task.page_table addr) [
    | none ↦ none
    | some pa ↦ some (k.machine.memory (pa2va pa))
  ]
]

abbrev pub with_kernel : Kernel → Option ℕ → Run (ℕ × Kernel)
with_kernel k none = stuck
with_kernel k (some c) = done (c, k)

unfoldable pub user_byte : Layout → ℕ → Kernel → Run (ℕ × Kernel)
user_byte lay addr k = elim (mapped_byte k addr) [
  | some c ↦ done (c, k)
  | none ↦ fault_at lay addr k >>= λ k'. with_kernel k' (mapped_byte k' addr)
]

-- for (cnt = 0; cnt < size && buf[cnt]; ++cnt) putc(buf[cnt]), from `cnt` with `left` bytes to go.
unfoldable pub write_loop : Layout → ℕ → ℕ → ℕ → Kernel → Run (ℕ × Kernel)
write_loop lay zero cnt buf k = done (cnt, k)
write_loop lay (suc left) cnt buf k = user_byte lay (add64 buf cnt) k >>= λ r.
    let rest = write_loop lay left (cnt + 1) buf (record r.1 { calls = putc r.0 r.1.calls }) in
    if r.0 == 0 then done (cnt, r.1) else rest

-- `fd` and `size` are `unsigned int`.
unfoldable pub sys_write : Layout → ℕ → ℕ → ℕ → Kernel → Run (ℕ × Kernel)
sys_write lay fd buf size k =
    if fd == stdout
    then write_loop lay size 0 buf (record k { calls = puts (36 ∷ 32 ∷ []) k.calls })
    else done (0, k)

-- An `int`, as the `uint64` it is stored into.
unfoldable pub sys_getpid : Kernel → Run ℕ
sys_getpid k = do task ← of_option (get_cur_task k); done (widen_int (task.pid % 2 ^ 32))
