-- ===== src/Kernel/Forked.antt =====
-- What sys_fork leaves: the child, and what stays as it was.
use simple_rv64os.Base.{
  ℕ, ◌-◌, ◌%◌, ◌^◌, ◌<◌, ◌≤◌, ◌≡◌, ◌≢◌, refl, sym, subst, ◌∙◌, ap, inl, inr, none, some, arith,
}
use simple_rv64os.Base.Arrays.{put, put-same, put-other}
use simple_rv64os.Base.Word.{add64}
use simple_rv64os.Buddy.{Buddy}
use simple_rv64os.Defs.Numbers.{r_a0, r_sp}
use simple_rv64os.Kernel.{PtRegs, Kernel, Layout, get_cur_task}
use simple_rv64os.Kernel.Fork.{child_frame, child_task, or_halt, sys_fork}
use simple_rv64os.Mm.{kalloc}
use simple_rv64os.Mm.Pages.{non_null-nonzero}
use simple_rv64os.Paging.{Machine}
use simple_rv64os.Rand.{Rand, widen_int}
use simple_rv64os.Run.{done, halted, ◌>>=◌}
use simple_rv64os.Run.Always.{Always, Always-any, Always-done, Always->>=, Always-option}
use simple_rv64os.Sched.{nr_tasks, Slots, Sched, add_task, switch_to}
use simple_rv64os.Sched.Slots.{add_task_lem}
use simple_rv64os.Sched.Sound.{switch_to_lem}
use simple_rv64os.Task.{Task}

-- `pid` is the lowest free slot from 2 on, and add_task put the task there.
pub record IsLowest (slots : Slots) (new : Task) (pid : ℕ) : Type 0 where
  pub low : 2 ≤ pid
  pub high : pid < nr_tasks
  pub free : slots pid ≡ none
  pub used : (j : ℕ) → 2 ≤ j → j < pid → slots j ≢ none
  pub array : (add_task slots new).1 ≡ put slots pid (some new)

pub or_halt-IsLowest :
    (slots : Slots) (new : Task) → Always (IsLowest slots new) (or_halt (add_task slots new).0)
unfolding Always
or_halt-IsLowest slots new = elim (add_task_lem slots new) [
  | inl (i, e, lo, hi, free, lowest) ↦
      let got : (add_task slots new).0 ≡ some i = ap (λ x. x.0) e in
      subst (λ o. Always (IsLowest slots new) (or_halt o)) (sym got)
        record { low = lo; high = hi; free = free; used = lowest; array = ap (λ x. x.1) e }
  | inr (e, full) ↦
      let got : (add_task slots new).0 ≡ none = ap (λ x. x.0) e in
      subst (λ o. Always (IsLowest slots new) (or_halt o)) (sym got) tt
]

-- The kernel after a fork by the task `parent`, and what sys_fork returns to it.
pub record IsForked (k : Kernel) (parent : Task) (r : ℕ × Kernel) : Type 0 where
  pub pid : ℕ
  pub child : Task
  pub low : 2 ≤ pid
  pub high : pid < nr_tasks
  pub free : k.sched.task pid ≡ none
  pub lowest : (j : ℕ) → 2 ≤ j → j < pid → k.sched.task j ≢ none
  pub runs : r.1.sched.current ≡ pid
  pub here : r.1.sched.task pid ≡ some child
  pub own_pid : child.pid ≡ pid
  pub own_page : r.1.pages pid ≢ 0
  pub own_table : child.page_table ≢ 0
  pub area_count : child.vma_cnt ≡ parent.vma_cnt
  pub areas : child.vmas ≡ parent.vmas
  pub zero_there : (r.1.frames pid).regs (r_a0 - 1) ≡ 0
  pub behind : (r.1.frames pid).sepc ≡ add64 (k.frames k.sched.current).sepc 4
  pub others : (j : ℕ) → j ≢ pid → r.1.sched.task j ≡ k.sched.task j
  pub frames : (j : ℕ) → j ≢ pid → r.1.frames j ≡ k.frames j
  pub result : r.0 ≡ widen_int (parent.pid % 2 ^ 32)

child_frame-zero :
    (frame : PtRegs) (child_regs : ℕ) → (child_frame frame child_regs).regs (r_a0 - 1) ≡ 0
unfolding child_frame
child_frame-zero frame child_regs =
    put-other (put frame.regs (r_a0 - 1) 0) (r_sp - 1) child_regs (r_a0 - 1) (omega arith)
    ∙ put-same frame.regs (r_a0 - 1) 0

-- The parent's part of sys_fork is over when the child runs.
forked :
    (lay : Layout) (k : Kernel) (parent : Task) (pid number child_regs stack table page : ℕ)
    (machine : Machine) (rand : Rand) (s' : Sched)
    → IsLowest k.sched.task parent pid
    → page ≢ 0
    → table ≢ 0
    → switch_to
        (record k.sched {
          task =
              put
                (add_task k.sched.task parent).1
                pid
                (some (child_task lay parent pid number child_regs stack table));
        })
        pid
      ≡ some s'
    → IsForked k parent (
      widen_int (parent.pid % 2 ^ 32),
      record k {
        machine = machine;
        sched = s';
        pages = put k.pages pid page;
        frames = put k.frames pid (child_frame (k.frames k.sched.current) child_regs);
        rand = rand;
      },
    )
unfolding child_task child_frame
forked lay k parent pid number child_regs stack table page machine rand s' at good good_table e =
    let child = child_task lay parent pid number child_regs stack table in
    let slots = put (add_task k.sched.task parent).1 pid (some child) in
    let (t, there, same) = switch_to_lem (record k.sched { task = slots }) s' pid e in
    let array : s'.task ≡ slots = ap (λ x. x.task) same in
    let frame : put k.frames pid (child_frame (k.frames k.sched.current) child_regs) pid
        ≡ child_frame (k.frames k.sched.current) child_regs =
      put-same k.frames pid _ in
    record {
      pid = pid;
      child = child;
      low = at.low;
      high = at.high;
      free = at.free;
      lowest = at.used;
      runs = ap (λ x. x.current) same;
      here = ap (λ f. f pid) array ∙ put-same (add_task k.sched.task parent).1 pid (some child);
      own_pid = refl;
      own_page = λ z. good (sym (put-same k.pages pid page) ∙ z);
      own_table = good_table;
      area_count = refl;
      areas = refl;
      zero_there =
          ap (λ f. f.regs (r_a0 - 1)) frame
          ∙ child_frame-zero (k.frames k.sched.current) child_regs;
      behind = ap (λ f. f.sepc) frame;
      others = λ j ne.
          ap (λ f. f j) array
          ∙ put-other (add_task k.sched.task parent).1 pid (some child) j (λ e. ne (sym e))
          ∙ ap (λ f. f j) at.array
          ∙ put-other k.sched.task pid (some parent) j (λ e. ne (sym e));
      frames = λ j ne. put-other k.frames pid _ j (λ e. ne (sym e));
      result = refl;
    }

-- Where sys_fork returns, it has put a child into the lowest free slot from 2 on, with that slot as its
-- pid, the parent's areas, and a page and a page table that are not NULL, and switched to it; the child's frame holds 0 in a0 and goes on behind
-- the call; every other task and frame is as before; and what it returns is the parent's own pid.
pub sys_fork-IsForked :
    (lay : Layout) (regs_at stack : ℕ) (k : Kernel) (parent : Task) (r : ℕ × Kernel)
    → k.sched.task k.sched.current ≡ some parent
    → sys_fork lay regs_at stack k ≡ done r
    → IsForked k parent r
unfolding sys_fork get_cur_task Always
sys_fork-IsForked lay regs_at stack k parent r at e = Always-done P _ r all e
  where
    P : ℕ × Kernel → Type 0
    P x = IsForked k parent x

    on_parent : (t : Task) → parent ≡ t → (x : ℕ × Kernel) → IsForked k t x → P x
    on_parent t same x f = subst (λ y. IsForked k y x) (sym same) f

    all : Always P (sys_fork lay regs_at stack k)
    all = Always-any P _ _ (λ page. Always-option P _ _ (λ t at'.
        Always->>= (IsLowest k.sched.task t) P _ _ (or_halt-IsLowest k.sched.task t) (λ pid lowest.
          Always-option P _ _ (λ copy made. Always-option P _ _ (λ table made'.
            Always-any P _ _ (λ machine. Always-option P _ _ (λ s' switched.
              let same : parent ≡ t = cc (sym at ∙ at') in
              on_parent t same _ (
                forked lay k t pid _ _ stack table.0 copy.0 machine _ s' lowest
                  (non_null-nonzero (some page) copy made)
                  (non_null-nonzero (kalloc copy.1) table made') switched))))))))

-- With every slot from 2 to 15 taken, sys_fork halts, if there is a page for the child.
pub sys_fork-full :
    (lay : Layout) (regs_at stack : ℕ) (k : Kernel) (page : ℕ × Buddy) (parent : Task)
    → kalloc k.machine.buddy ≡ some page
    → k.sched.task k.sched.current ≡ some parent
    → ((j : ℕ) → 2 ≤ j → j < nr_tasks → k.sched.task j ≢ none)
    → sys_fork lay regs_at stack k ≡ halted
unfolding sys_fork get_cur_task ◌>>=◌
sys_fork-full lay regs_at stack k page parent room at full = rw (room, at, or_halt, full_array) refl
  where
    full_array : (add_task k.sched.task parent).0 ≡ none
    full_array = elim (add_task_lem k.sched.task parent) [
      | inl (i, e, lo, hi, free, lowest) ↦ absurd (full i lo hi free)
      | inr (e, all) ↦ ap (λ x. x.0) e
    ]
