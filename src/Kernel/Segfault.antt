-- ===== src/Kernel/Segfault.antt =====
-- Which page faults end in halt(), and which for want of memory.
use simple_rv64os.Base.{ℕ, ◌<◌, ◌≡◌, ◌⊎◌, Option, false, true, if◌then◌else◌}
use simple_rv64os.Buddy.{Buddy}
use simple_rv64os.Fault.{alloc_annoymous_vm, fault_file}
use simple_rv64os.Perm.{is_annoy}
use simple_rv64os.Kernel.{Kernel}
use simple_rv64os.Paging.{Machine}
use simple_rv64os.Run.{Run, done, halted, stuck}
use simple_rv64os.Task.{Task, covers}

refill : Kernel → Machine → Run Kernel
refill k machine = done (record k { machine = machine })

-- What fills the page of an address in the area.
abbrev filled : ℕ → Machine → Task → ℕ → ℕ → Option Machine
filled uapp_start m t addr i =
    if is_annoy (t.vmas i).vm_flags
    then alloc_annoymous_vm m (t.vmas i) t.page_table
    else fault_file uapp_start m t (t.vmas i) addr

-- What becomes of a fault at an address: `result` is how the handler ends.
record Faults (k : Kernel) (t : Task) (addr : ℕ) (result : Run Kernel) : Type 0 where
  nowhere : ((j : ℕ) → j < t.vma_cnt → covers (t.vmas j) addr ≡ false) → result ≡ halted
  somewhere :
      (j : ℕ)
      → j < t.vma_cnt
      → covers (t.vmas j) addr ≡ true
      → ((k' : Kernel) × (result ≡ done k')) ⊎ (result ≡ stuck)
  no_memory :
      (j : ℕ)
      → j < t.vma_cnt
      → covers (t.vmas j) addr ≡ true
      → k.machine.buddy.bitmap 0 ≡ 0
      → result ≡ stuck
